-- ===== src/Tests/Wire.antt =====
-- Packets and requests at concrete values.
use file_transfer_over_udp.Prelude.{
  ℕ, ◌<◌, ◌≤◌, ◌≡◌, ◌↔◌, ◌⊎◌, refl, true, false, some, [], ◌∷◌, ◌++◌, length, take, arith,
}
use file_transfer_over_udp.Prelude.Words.{Bytes}
use file_transfer_over_udp.Prelude.Text.{codes, cstring}
use file_transfer_over_udp.Wire.{rrq, wrq, block, ack, error, octet, netascii, get_opcode}
use file_transfer_over_udp.Wire.Packet.{
  encode_ack, encode_data, encode_error, zeros, overrun, numbered, parse_packet,
}
use file_transfer_over_udp.Wire.Packet.RoundTrip.{
  parse_packet-encode_data, parse_packet-encode_ack, parse_packet-encode_error,
  parse_packet_overrun,
}
use file_transfer_over_udp.Wire.Options.{
  blksize, timeout, tsize, windowsize, read_type, kinds, Options, no_options, options_bytes,
  is_number_within, parse_from, parse_options, accepted_value,
}
use file_transfer_over_udp.Wire.Options.Number.{strtoul, skip_blank_or_plus}
use file_transfer_over_udp.Wire.Options.Within.{strtoul-skip}
use file_transfer_over_udp.Wire.Options.Ends.{parse_from_enough}
use file_transfer_over_udp.Wire.Options.Parse.{read_back, parse_options-options_bytes}
use file_transfer_over_udp.Wire.Request.{
  read, write, encode_request, request_packet_init, decode_request,
}
use file_transfer_over_udp.Wire.Request.RoundTrip.{
  decode_request-encode_request, decode_request-request_packet_init,
}

parse_packet-encode_data_example :
    parse_packet (0 ∷ 3 ∷ 1 ∷ 2 ∷ 9 ∷ []) ≡ numbered block 258 (9 ∷ [])
unfolding encode_data
parse_packet-encode_data_example =
    parse_packet-encode_data 258 (9 ∷ []) (0 ∷ 3 ∷ 1 ∷ 2 ∷ 9 ∷ []) (omega arith) refl

parse_packet-encode_ack_example : parse_packet (encode_ack 515) ≡ numbered ack 515 []
parse_packet-encode_ack_example = parse_packet-encode_ack 515 (omega arith)

parse_packet-encode_error_example :
    (k : ℕ) × (0 < k)
    × (parse_packet (encode_error 1 (codes "no file"))
        ≡ numbered error 1 (take 511 (cstring (codes "no file")) ++ zeros k))
parse_packet-encode_error_example = parse_packet-encode_error 1 (codes "no file") (omega arith)

parse_packet_overrun_example : (parse_packet (encode_ack 1) ≡ overrun) ↔ (
    ((get_opcode (encode_ack 1) ≡ rrq) ⊎ (get_opcode (encode_ack 1) ≡ wrq))
      × (512 < length (encode_ack 1))
    ⊎ ((get_opcode (encode_ack 1) ≡ block) ⊎ (get_opcode (encode_ack 1) ≡ error))
      × (516 < length (encode_ack 1)))
parse_packet_overrun_example = parse_packet_overrun (encode_ack 1)

abbrev asked : Options
asked = record no_options {
  blksize_option = record { is_active = true; value = codes " +1024" };
  windowsize_option = record { is_active = true; value = codes "99999" };
}

parse_options-options_bytes_example :
    parse_options no_options (length (options_bytes asked kinds)) (options_bytes asked kinds ++ [])
    ≡ record {
      blksize_option = read_back blksize asked.blksize_option;
      timeout_option = read_back timeout asked.timeout_option;
      tsize_option = read_back tsize asked.tsize_option;
      windowsize_option = read_back windowsize asked.windowsize_option;
      read_type_option = read_back read_type asked.read_type_option;
    }
parse_options-options_bytes_example = parse_options-options_bytes asked [] (ground arith)

-- The value is read back without its blank and its `+`; the other one is out of range.
read_back-asked :
    (read_back blksize asked.blksize_option ≡ record { is_active = true; value = codes "1024" })
    × (read_back windowsize asked.windowsize_option ≡ record { is_active = false; value = [] })
unfolding accepted_value
read_back-asked = (refl, refl)

parse_from_enough_example :
    parse_from 9 4 (codes "a" ++ 0 ∷ codes "b" ++ 0 ∷ []) no_options
    ≡ some (parse_options no_options 4 (codes "a" ++ 0 ∷ codes "b" ++ 0 ∷ []))
parse_from_enough_example =
    parse_from_enough 9 4 (codes "a" ++ 0 ∷ codes "b" ++ 0 ∷ []) no_options (omega arith)

strtoul-skip_example :
    (8 ≤ (strtoul (skip_blank_or_plus (codes " +512"))).value)
    × ((strtoul (skip_blank_or_plus (codes " +512"))).value ≤ 65464)
unfolding is_number_within
strtoul-skip_example = strtoul-skip 8 65464 (codes " +512") refl

abbrev encoded : Bytes
encoded = 0 ∷ 2 ∷ (codes "f" ++ 0 ∷ (codes "octet" ++ 0 ∷ []))

decode_request-encode_request_example : decode_request encoded ≡ write (codes "f") octet
unfolding encode_request
decode_request-encode_request_example =
    decode_request-encode_request false (codes "f") octet encoded (ground arith) (omega arith) refl

abbrev encoded_with_options : Bytes
encoded_with_options =
    0
    ∷ 1
    ∷ (codes "f"
        ++ 0
          ∷ (codes "netascii"
              ++ 0
                ∷ (codes "blksize"
                    ++ 0
                      ∷ (codes " +1024"
                          ++ 0 ∷ (codes "windowsize" ++ 0 ∷ (codes "99999" ++ 0 ∷ []))))))

decode_request-request_packet_init_example :
    decode_request encoded_with_options ≡ read (codes "f") netascii
unfolding request_packet_init
decode_request-request_packet_init_example =
    decode_request-request_packet_init true (codes "f") netascii asked encoded_with_options
      (ground arith) (omega arith) (λ e. cc) refl
