-- ===== src/Io.antt =====
-- The sizes of a file, in bytes and in netascii: tftp/src/utils/io.c.
pub mod Count
use file_transfer_over_udp.Prelude.{
  ℕ, ◌+◌, Bool, ◌||◌, Option, none, some, List, [], ◌∷◌, ◌++◌, length, take, drop, min, ◌==◌,
  if◌then◌else◌,
}
use file_transfer_over_udp.Prelude.Words.{Bytes, sub_size}

-- The type of a file by `fstat`: a regular file with its size, a block device with the answer of
-- `BLKGETSIZE64`, or another one.
pub data FileType : Type 0 where
  regular : ℕ → FileType
  block_device : Option ℕ → FileType
  other_type : FileType

-- `file_size_octet`, from whether the descriptor is one and from the answer of `fstat`.
unfoldable pub file_size_octet : Bool → Option FileType → Option ℕ
file_size_octet is_open none = none
file_size_octet is_open (some (regular size)) = if is_open then some size else none
file_size_octet is_open (some (block_device size)) = if is_open then size else none
file_size_octet is_open (some other_type) = none

abbrev pub buffer_size : ℕ
buffer_size = 4096

-- The loop over the bytes of the buffer: line feeds and carriage returns.
unfoldable pub controls : Bytes → ℕ
controls [] = 0
controls (c ∷ rest) =
    let later = controls rest in if (c == 10) || (c == 13) then later + 1 else later

-- How a count ends; `unfinished` is a loop that reads on.
pub data Counting : Type 0 where
  counted : ℕ → Counting
  read_failed unfinished : Counting

-- The loop of `file_size_netascii`. A read fails, or the system gives at most so many bytes; it goes over
-- the whole buffer, with the bytes of earlier reads behind those of the last one.
unfoldable pub count_netascii : List (Option ℕ) → ℕ → Bytes → Bytes → ℕ → Counting
count_netascii [] bytes_to_read left buffer size =
    if bytes_to_read == 0 then counted size else unfinished
count_netascii (none ∷ rest) bytes_to_read left buffer size =
    if bytes_to_read == 0 then counted size else read_failed
count_netascii (some n ∷ rest) bytes_to_read left buffer size =
    let bytes = take (min n buffer_size) left in
    let filled = bytes ++ drop (length bytes) buffer in
    let more =
      count_netascii rest (sub_size bytes_to_read (length bytes)) (drop (length bytes) left) filled
        (size + length bytes + controls filled) in
    if bytes_to_read == 0 then counted size else more

-- `file_size_netascii`, with the answers of `malloc` and of `lseek`.
unfoldable pub file_size_netascii :
    Bool → Option FileType → Bool → Bytes → Bytes → List (Option ℕ) → Bool → Option ℕ
file_size_netascii is_open type allocated buffer content reads seeks =
    elim (file_size_octet is_open type) [
      | none ↦ none
      | some bytes_to_read ↦
          if allocated
          then (elim (count_netascii reads bytes_to_read content buffer 0) [
            | counted size ↦ if seeks then some size else none
            | _ ↦ none
          ])
          else none
    ]
