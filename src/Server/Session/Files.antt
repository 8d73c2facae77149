-- ===== src/Server/Session/Files.antt =====
-- The file behind a session: `session_file_init`, `get_full_path` and `open_directory_as_memfile` of
-- tftp/src/server/session_file.c. The file system of the machine is a parameter.
use file_transfer_over_udp.Prelude.{
  ℕ, Bool, true, false, not, ◌&&◌, Option, none, some, List, [], ◌∷◌, ◌++◌, ◌==◌, if◌then◌else◌,
}
use file_transfer_over_udp.Prelude.Words.{Bytes}
use file_transfer_over_udp.Prelude.Text.{codes}
use file_transfer_over_udp.Wire.{ErrorCode, not_defined, access_violation, file_not_found}
use file_transfer_over_udp.Server.Session.{RequestType, read_request, write_request}

-- The values of `errno` that the code tells apart; another has the text of `strerror`.
pub data Errno : Type 0 where
  eacces enoent : Errno
  other_errno : Bytes → Errno

-- What `open` gives: the content, whether it can be sought in, and the size that `fstat` knows.
pub data Opened : Type 0 where
  opened : Bytes → Bool → Option ℕ → Opened
  open_error : Errno → Opened

-- The file system: `open` for reading and for writing, the entries that `readdir` gives of a directory
-- that can be opened, and whether the calls of the pipe and of the allocator succeed: `pipe`, `fcntl`
-- with the size of the listing, the writes of the listing, and `malloc`.
pub record FileSystem : Type 0 where
  pub open_read : Bytes → Opened
  pub open_write : Bytes → Opened
  pub entries : Bytes → Option (List Bytes)
  pub can_pipe : Bool
  pub can_set_pipe_size : Bytes → Bool
  pub can_write_pipe : Bytes → Bool
  pub can_allocate : Bool

-- A file descriptor with what stands behind it, or the error for the client.
pub data SessionFile : Type 0 where
  file : Bytes → Bool → Option ℕ → SessionFile
  no_file : ErrorCode → Bytes → SessionFile

abbrev ends_with_slash : Bytes → Bool
ends_with_slash [] = false
ends_with_slash (c ∷ []) = c == b'/'
ends_with_slash (c ∷ d ∷ s) = ends_with_slash (d ∷ s)

-- `get_full_path`.
unfoldable pub get_full_path : Bytes → Bytes → Bytes
get_full_path filename root =
    if ends_with_slash root then root ++ filename else root ++ b'/' ∷ filename

-- The path that both functions open; without a root it is the name that the client gave.
abbrev pub path_of : Bytes → Option Bytes → Bytes
path_of filename none = filename
path_of filename (some root) = get_full_path filename root

abbrev needs_memory : Option Bytes → Bool
needs_memory none = false
needs_memory (some root) = true

-- The lines that the directory listing writes into the pipe.
unfoldable pub listing : List Bytes → Bytes
listing [] = []
listing (name ∷ names) = name ++ b'\n' ∷ listing names

-- The part of `open_directory_as_memfile` behind the first `readdir` loop.
unfoldable pub pipe_of : FileSystem → Bytes → SessionFile
pipe_of fs text =
    if not fs.can_pipe
    then no_file not_defined (codes "Could not create pipe.")
    else if not (fs.can_set_pipe_size text)
    then no_file not_defined (codes "Could not set pipe size.")
    else if not (fs.can_write_pipe text)
    then no_file not_defined (codes "Could not write to pipe.")
    else file text false none

-- `open_directory_as_memfile`.
unfoldable pub open_directory_as_memfile : FileSystem → Bytes → Option Bytes → SessionFile
open_directory_as_memfile fs filename root =
    if needs_memory root && not fs.can_allocate
    then no_file not_defined (codes "Could not allocate memory to calculate the directory path.")
    else elim (fs.entries (path_of filename root)) [
      | none ↦ no_file file_not_found (codes "Could not open directory.")
      | some names ↦ pipe_of fs (listing names)
    ]

-- The error for the client after a failed `open`.
unfoldable pub open_failure : Errno → SessionFile
open_failure eacces = no_file access_violation (codes "Permission denied.")
open_failure enoent = no_file file_not_found (codes "No such file or directory.")
open_failure (other_errno text) = no_file not_defined text

abbrev of_open : Opened → SessionFile
of_open (opened content seekable size) = file content seekable size
of_open (open_error e) = open_failure e

-- `session_file_init`; the flag is `read_type == TFTP_READ_TYPE_DIRECTORY`.
unfoldable pub session_file_init :
    FileSystem → Bytes → Option Bytes → RequestType → Bool → SessionFile
session_file_init fs filename root write_request is_directory =
    if needs_memory root && not fs.can_allocate
    then no_file not_defined (codes "Could not allocate memory to calculate the file path.")
    else of_open (fs.open_write (path_of filename root))
session_file_init fs filename root read_request true = open_directory_as_memfile fs filename root
session_file_init fs filename root read_request false =
    if needs_memory root && not fs.can_allocate
    then no_file not_defined (codes "Could not allocate memory to calculate the file path.")
    else of_open (fs.open_read (path_of filename root))
