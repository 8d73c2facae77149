-- ===== src/Server/Session/Start.antt =====
-- The start of a session: `is_request_valid` and `start` of tftp/src/server/session.c, and
-- `session_options_init`, `parse_mode`, `parse_options` and `session_options_get_read_type` of
-- tftp/src/server/session_options.c.
pub mod Storage
pub mod Applied
pub mod Negotiation
use file_transfer_over_udp.Prelude.{
  ℕ, zero, suc, ◌+◌, ◌-◌, ◌/◌, ◌%◌, Bool, true, false, not, ◌&&◌, ◌||◌, Option, none, some, List,
  [], ◌∷◌, ◌++◌, length, drop, ltb, ◌==◌, if◌then◌else◌,
}
use file_transfer_over_udp.Prelude.Words.{Bytes, u8, u16}
use file_transfer_over_udp.Prelude.Text.{codes, cstring, strlen, after_string, text_eq_fold}
use file_transfer_over_udp.Wire.{
  rrq, wrq, Mode, octet, netascii, invalid, illegal_operation, default_blksize, get_opcode,
}
use file_transfer_over_udp.Wire.Options.{
  OptionKind, blksize, timeout, tsize, windowsize, read_type, kinds, Options, get, set, no_options,
  parse_options,
}
use file_transfer_over_udp.Wire.Options.Number.{strtoul}
use Storage.{Places, nowhere, place, places_from, print_size}
use file_transfer_over_udp.Inet.{Address}
use file_transfer_over_udp.Server.Session.{
  Session, Slot, RequestType, read_request, write_request, Answer, succeeded, Handler, ◌>>◌, skip,
  assign, reading, when,
}
use file_transfer_over_udp.Server.Session.Calls.{call, set_error, send_error_to}
use file_transfer_over_udp.Server.Session.Files.{
  FileSystem, SessionFile, file, no_file, session_file_init,
}

-- `struct tftp_server_info`, as far as a session reads it.
pub record ServerInfo : Type 0 where
  pub root : Option Bytes
  pub retries : ℕ
  pub timeout : ℕ
  pub is_adaptive_timeout_enabled : Bool
  pub is_write_request_enabled : Bool
  pub is_list_request_enabled : Bool

-- The loop of `is_request_valid` that counts the terminated strings. It stops at the last byte, so a
-- string that stands there is not counted.
unfoldable pub token_length : ℕ → Bytes → ℕ
token_length zero rest = 0
token_length (suc fuel) rest =
    let more = token_length fuel (after_string rest) in
    if ltb 1 (length rest) then (if strlen rest == length rest then 0 else suc more) else 0

-- Two strings or more, and an even number of them.
abbrev is_token_count : ℕ → Bool
is_token_count n = not (ltb n 2) && n % 2 == 0

-- `is_request_valid`.
unfoldable pub is_request_valid : ServerInfo → Bytes → Bool
is_request_valid info request =
    let well_formed = is_token_count (token_length (length request) (drop 2 request)) in
    elim (get_opcode request) [
      | rrq ↦ well_formed
      | wrq ↦ info.is_write_request_enabled && well_formed
      | _ ↦ false
    ]

-- `parse_mode`.
unfoldable pub parse_mode : Bytes → Mode
parse_mode text =
    if text_eq_fold text (codes "octet")
    then octet
    else if text_eq_fold text (codes "netascii")
    then netascii
    else invalid

-- What `session_options_init` finds in the request behind the opcode: its strings up to the mode, and
-- the option string with its size, if there is one.
pub record RequestStrings : Type 0 where
  pub path : Bytes
  pub mode : Mode
  pub options_str : Option Bytes

unfoldable pub session_options_init : Bytes → RequestStrings
session_options_init options =
    let behind_path = after_string options in
    let size = length options - (strlen options + 1 + (strlen behind_path + 1)) in
    record {
      path = cstring options;
      mode = parse_mode (cstring behind_path);
      options_str = if size == 0 then none else some (drop (length options - size) options);
    }

-- `sprintf("%zu", n)`; 20 digits are enough for a `size_t`.
unfoldable pub decimal_from : ℕ → ℕ → Bytes → Bytes
decimal_from zero n digits = digits
decimal_from (suc fuel) n digits =
    let more = decimal_from fuel (n / 10) ((b'0' + n % 10) ∷ digits) in
    if ltb n 10 then (b'0' + n) ∷ digits else more

abbrev pub decimal : ℕ → Bytes
decimal n = decimal_from 20 n []

-- The scan of `parse_options` for a `timeout` of "adaptive", with `left` bytes to the end.
unfoldable pub asks_adaptive : ℕ → ℕ → Bytes → Bool
asks_adaptive zero left mem = false
asks_adaptive (suc fuel) left mem =
    let val = after_string mem in
    let more = asks_adaptive fuel (left - (strlen mem + 1 + (strlen val + 1))) (after_string val) in
    if ltb 1 left
    then (if text_eq_fold (cstring mem) (codes "timeout")
          && text_eq_fold (cstring val) (codes "adaptive")
        then true
        else more)
    else false

-- One round of the last loop of `parse_options`: what an active option sets. `size` is what
-- `file_size_octet` or `file_size_netascii` gives for the file; its text is printed into the option string
-- `str`, where the values of other options may stand.
unfoldable pub apply_option : Option ℕ → Bytes → Places → OptionKind → Session → Session
apply_option size str places o s =
    let value = (get s.recognized_options o).value in
    let t = record s { valid_options_required = true } in
    let u : Session = elim o [
      | blksize ↦ record t { block_size = u16 (strtoul value).value }
      | timeout ↦
          if text_eq_fold value (codes "adaptive")
          then record t { is_adaptive_timeout_active = true }
          else record t { timeout = u8 (strtoul value).value }
      | tsize ↦ record t {
        recognized_options = elim size [
          | none ↦ set s.recognized_options tsize (record { is_active = false; value = value })
          | some n ↦ print_size str places (decimal n) s.recognized_options
        ];
      }
      | windowsize ↦ record t { window_size = u16 (strtoul value).value }
      | read_type ↦ t
    ] in
    if (get s.recognized_options o).is_active then u else s

unfoldable pub apply_options : Option ℕ → Bytes → Places → List OptionKind → Session → Session
apply_options size str places [] s = s
apply_options size str places (o ∷ rest) s =
    apply_options size str places rest (apply_option size str places o s)

-- `parse_options` of session_options.c up to its last loop: the options that are recognised.
unfoldable pub recognize_options : ServerInfo → Bytes → Session → Session
recognize_options info str s =
    let parsed = parse_options s.recognized_options (length str) str in
    let listed =
      if info.is_list_request_enabled
      then parsed
      else set parsed read_type (record parsed.read_type_option { is_active = false }) in
    if info.is_adaptive_timeout_enabled && asks_adaptive (length str) (length str) str
    then record s {
      is_adaptive_timeout_active = true;
      recognized_options =
          set listed timeout (record { is_active = true; value = codes "adaptive" });
    }
    else record s { recognized_options = listed }

-- The places of the values then; "adaptive" is a string of the program.
unfoldable pub option_places : ServerInfo → Bytes → Places
option_places info str =
    let places = places_from (length str) (length str) 0 str nowhere in
    if info.is_adaptive_timeout_enabled && asks_adaptive (length str) (length str) str
    then place places timeout none
    else places

unfoldable pub session_parse_options : ServerInfo → Option ℕ → Bytes → Session → Session
session_parse_options info size str s =
    apply_options size str (option_places info str) kinds (recognize_options info str s)

-- `session_options_get_read_type`, on what the request asks for, and whether it is a directory. A
-- value other than "directory" is never stored.
unfoldable pub asks_directory : ServerInfo → RequestType → RequestStrings → Session → Bool × Session
asks_directory info write_request strings s = (false, s)
asks_directory info read_request strings s = elim strings.options_str [
  | none ↦ (false, s)
  | some str ↦
      let parsed = parse_options s.recognized_options (length str) str in
      if info.is_list_request_enabled
      then (
        parsed.read_type_option.is_active
            && text_eq_fold parsed.read_type_option.value (codes "directory"),
        record s { recognized_options = parsed },
      )
      else (false, s)
]

-- The rest of `start` once the file is open: the options, the two buffers, whose allocation may fail,
-- and the report of an error that is there by now.
unfoldable pub prepare : ServerInfo → Option ℕ → Option Bytes → Handler
prepare info size options_str =
    assign (λ s. elim options_str [ none ↦ s | some str ↦ session_parse_options info size str s ])
    >> call (λ s. s)
    >> call (λ s. record s {
      recv_buffer_size =
          4 + (if ltb s.block_size default_blksize then default_blksize else s.block_size);
    })
    >> reading (λ s. when s.error.error_occurred (
        reading (λ t. send_error_to t.client_address)
        >> assign (λ t. record t { should_close = true })))

-- The part of `start` behind `session_file_init`.
unfoldable pub with_file : ServerInfo → Option Bytes → SessionFile → Handler
with_file info options_str (no_file code text) s = (succeeded, set_error code text s)
with_file info options_str (file content seekable size) s =
    prepare info size options_str
      (record s { source = content; is_open = true; is_seekable = seekable })

-- The part of `start` that reads the strings of the request and opens the file. A mode that is not
-- known and a file that cannot be opened leave the error in the session, and return `true` at once; the
-- session goes on without a file and without memory for its packets, so that each read and write fails.
unfoldable pub open_request : ServerInfo → FileSystem → Bytes → Handler
open_request info fs request s =
    let strings = session_options_init (drop 2 request) in
    let named = record s { mode = strings.mode } in
    let (is_directory, t) = asks_directory info s.request_type strings named in
    elim strings.mode [
      | invalid ↦ (succeeded, set_error illegal_operation (codes "Unknown mode.") named)
      | _ ↦
          with_file info strings.options_str
            (session_file_init fs strings.path info.root s.request_type is_directory) t
    ]

-- What `start` writes into a new session. `session_connection_init`, which allocates the first receive
-- buffer, may fail.
unfoldable pub identify : Bytes → Handler
identify request =
    assign (λ s. record s {
      request_type = elim (get_opcode request) [ wrq ↦ write_request | _ ↦ read_request ];
    })
    >> call (λ s. record s {
      recv_buffer_size = default_blksize;
      error = record { error_occurred = false; number = 0; message = [] };
    })

-- `start`.
unfoldable pub start : ServerInfo → FileSystem → Bytes → Handler
start info fs request s =
    if is_request_valid info request
    then (identify request >> open_request info fs request) s
    else (succeeded, record s { should_close = true })
