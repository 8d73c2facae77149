-- ===== src/Wire/Request/RoundTrip.antt =====
-- What a request packet holds, when it is refused for its length, and that `tftp_decode_request` reads
-- it back.
use mathlib.Core.List.{append-nil, append_assoc}
use file_transfer_over_udp.Prelude.{
  ◌+◌, ◌≤◌, ◌<◌, ◌≡◌, ◌≢◌, refl, ap, ◌∙◌, Bool, true, false, none, some, List, [], ◌∷◌, ◌++◌,
  length, length-append, ltb, if◌then◌else◌, arith,
}
use file_transfer_over_udp.Prelude.Words.{Bytes}
use file_transfer_over_udp.Prelude.Text.{IsText, cstring, cstring-append, after_string-append}
use file_transfer_over_udp.Wire.{
  Opcode, rrq, wrq, opcode_number, Mode, octet, netascii, invalid, mode_text, padding_size, to_be16,
  get_opcode,
}
use file_transfer_over_udp.Wire.Options.{
  OptionKind, kinds, option_name, Options, get, option_bytes, options_bytes,
}
use file_transfer_over_udp.Wire.Request.{
  append_option, append_options, name_and_mode, request_packet_init, success, encode_request,
  get_mode, read, write, decode_mode, decode_filename, decode_request,
}

append_option_lem :
    (os : Options) (o : OptionKind) (out : Bytes)
    → length out ≤ padding_size
    → append_option os o out ≡ (
        if ltb padding_size (length (out ++ option_bytes os o))
        then none
        else some (out ++ option_bytes os o))
unfolding append_option option_bytes
append_option_lem os o out h = ground (
  arith,
  append-nil out,
  length-append out (option_name o ++ 0 ∷ ((get os o).value ++ 0 ∷ [])),
  length-append (option_name o) (0 ∷ ((get os o).value ++ 0 ∷ [])),
  length-append (get os o).value (0 ∷ []),
)

-- Once too long, the packet stays too long.
append_options_lem :
    (os : Options) (ks : List OptionKind) (out : Bytes)
    → length out ≤ padding_size
    → append_options os ks out ≡ (
        if ltb padding_size (length (out ++ options_bytes os ks))
        then none
        else some (out ++ options_bytes os ks))
unfolding append_options options_bytes
append_options_lem os [] out h = ground (arith, append-nil out)
append_options_lem os (o ∷ ks) out h = ground (
  arith,
  append_option_lem os o out h,
  append_options_lem os ks (out ++ option_bytes os o),
  append_assoc out (option_bytes os o) (options_bytes os ks),
  length-append (out ++ option_bytes os o) (options_bytes os ks),
)

length-name_and_mode :
    (filename : Bytes) (mode : Mode)
    → length (name_and_mode filename mode) ≡ length filename + 1 + length (mode_text mode) + 1
length-name_and_mode filename mode = omega (
  arith,
  length-append filename (0 ∷ (mode_text mode ++ 0 ∷ [])),
  length-append (mode_text mode) (0 ∷ []),
)

-- A request packet is refused exactly if its strings take more than 510 bytes together; otherwise it
-- is the opcode, the file name, the mode and the active options in their order.
pub request_packet_init_lem :
    (opcode : Opcode) (filename : Bytes) (mode : Mode) (os : Options)
    → IsText filename
    → request_packet_init opcode (filename ++ 0 ∷ []) mode os ≡ (
        let body = name_and_mode filename mode ++ options_bytes os kinds in
        if ltb padding_size (length body)
        then none
        else some (to_be16 (opcode_number opcode) ++ body))
unfolding request_packet_init
request_packet_init_lem opcode filename mode os h = ground (
  arith,
  cstring-append filename [] h,
  length-append filename (0 ∷ []),
  length-name_and_mode filename mode,
  length-append (name_and_mode filename mode) (options_bytes os kinds),
  append_options_lem os kinds (name_and_mode filename mode),
)

decode_mode_lem :
    (is_read : Bool) (filename : Bytes) (mode : Mode) (rest : Bytes)
    → mode ≢ invalid
    → decode_mode is_read filename (mode_text mode ++ 0 ∷ rest)
      ≡ (if is_read then read filename mode else write filename mode)
unfolding decode_mode cstring get_mode
decode_mode_lem is_read filename octet rest h = ground arith
decode_mode_lem is_read filename netascii rest h = ground arith
decode_mode_lem is_read filename invalid rest h = absurd (h refl)

name_and_mode-append :
    (filename : Bytes) (mode : Mode) (rest : Bytes)
    → name_and_mode filename mode ++ rest ≡ filename ++ 0 ∷ (mode_text mode ++ 0 ∷ rest)
name_and_mode-append filename mode rest =
    append_assoc filename (0 ∷ (mode_text mode ++ 0 ∷ [])) rest
    ∙ ap (λ t. filename ++ 0 ∷ t) (append_assoc (mode_text mode) (0 ∷ []) rest)

length-mode_text : (mode : Mode) → 5 ≤ length (mode_text mode)
length-mode_text octet = omega arith
length-mode_text netascii = omega arith
length-mode_text invalid = omega arith

decode_filename_lem :
    (is_read : Bool) (filename : Bytes) (mode : Mode) (rest : Bytes)
    → IsText filename
    → 0 < length filename
    → mode ≢ invalid
    → length (filename ++ 0 ∷ (mode_text mode ++ 0 ∷ rest)) ≤ padding_size
    → decode_filename is_read (filename ++ 0 ∷ (mode_text mode ++ 0 ∷ rest))
      ≡ (if is_read then read filename mode else write filename mode)
unfolding decode_filename
decode_filename_lem is_read filename mode rest h ne m fits = ground (
  arith,
  cstring-append filename (mode_text mode ++ 0 ∷ rest) h,
  after_string-append filename (mode_text mode ++ 0 ∷ rest) h,
  length-append filename (0 ∷ (mode_text mode ++ 0 ∷ rest)),
  length-append (mode_text mode) (0 ∷ rest),
  length-mode_text mode,
  decode_mode_lem is_read filename mode rest m,
)

decode_request-filename :
    (is_read : Bool) (body : Bytes)
    → length body ≤ padding_size
    → decode_request (to_be16 (opcode_number (if is_read then rrq else wrq)) ++ body)
      ≡ decode_filename is_read body
unfolding decode_request get_opcode
decode_request-filename true body h = ground arith
decode_request-filename false body h = ground arith

decode_request_named :
    (is_read : Bool) (filename : Bytes) (mode : Mode) (rest : Bytes)
    → IsText filename
    → 0 < length filename
    → mode ≢ invalid
    → length (name_and_mode filename mode ++ rest) ≤ padding_size
    → decode_request (
        to_be16 (opcode_number (if is_read then rrq else wrq))
        ++ (name_and_mode filename mode ++ rest))
      ≡ (if is_read then read filename mode else write filename mode)
decode_request_named is_read filename mode rest h ne m fits =
    decode_request-filename is_read _ fits
    ∙ ap (decode_filename is_read) (name_and_mode-append filename mode rest)
    ∙ decode_filename_lem is_read filename mode rest h ne m
        (rw (name_and_mode-append filename mode rest) at fits)

-- A packet that `tftp_encode_request` makes for a file name that is not empty and has no terminator
-- inside is decoded to its kind, its file name and its mode.
pub decode_request-encode_request :
    (is_read : Bool) (filename : Bytes) (mode : Mode) (packet : Bytes)
    → IsText filename
    → 0 < length filename
    → encode_request is_read (filename ++ 0 ∷ []) mode ≡ success packet
    → decode_request packet ≡ (if is_read then read filename mode else write filename mode)
unfolding encode_request
decode_request-encode_request is_read filename octet packet h ne e = ground (
  arith,
  cstring-append filename [] h,
  length-append filename (0 ∷ []),
  length-name_and_mode filename octet,
  append-nil (name_and_mode filename octet),
  decode_request_named is_read filename octet [] h ne (λ e. cc),
)
decode_request-encode_request is_read filename netascii packet h ne e = ground (
  arith,
  cstring-append filename [] h,
  length-append filename (0 ∷ []),
  length-name_and_mode filename netascii,
  append-nil (name_and_mode filename netascii),
  decode_request_named is_read filename netascii [] h ne (λ e. cc),
)
decode_request-encode_request is_read filename invalid packet h ne e = cc

-- A packet that `tftp_rrq_packet_init` or `tftp_wrq_packet_init` makes for a file name that is not
-- empty and has no terminator inside, a valid mode and any options, is decoded to its kind, its
-- file name and its mode.
pub decode_request-request_packet_init :
    (is_read : Bool) (filename : Bytes) (mode : Mode) (os : Options) (packet : Bytes)
    → IsText filename
    → 0 < length filename
    → mode ≢ invalid
    → request_packet_init (if is_read then rrq else wrq) (filename ++ 0 ∷ []) mode os ≡ some packet
    → decode_request packet ≡ (if is_read then read filename mode else write filename mode)
decode_request-request_packet_init is_read filename mode os packet h ne m e = ground (
  arith,
  request_packet_init_lem (if is_read then rrq else wrq) filename mode os h,
  decode_request_named is_read filename mode (options_bytes os kinds) h ne m,
)
