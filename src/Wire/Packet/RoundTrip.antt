-- ===== src/Wire/Packet/RoundTrip.antt =====
-- `tftp_parse_packet` of tftp/src/tftp.c on the packets that the `tftp_encode_*` functions write.
use file_transfer_over_udp.Prelude.{
  ℕ, zero, suc, ap, ◌-◌, length-drop, ◌↔◌, ◌<◌, ◌≤◌, ◌≡◌, ◌⊎◌, some, [], ◌++◌, length, arith,
  length-append, length-take, refl, take,
}
use file_transfer_over_udp.Prelude.Words.{Bytes, u16_mod}
use file_transfer_over_udp.Prelude.Text.{cstring}
use file_transfer_over_udp.Wire.{rrq, wrq, block, ack, error, opcode_number, get_opcode, to_be16}
use file_transfer_over_udp.Wire.Packet.{
  encode_ack, encode_data, encode_error, zeros, overrun, numbered, parse_packet,
}

-- A DATA packet that `tftp_encode_data` builds for a 16-bit block number is read back with its
-- block number and its data.
pub parse_packet-encode_data :
    (block_number : ℕ) (payload packet : Bytes)
    → block_number < u16_mod
    → encode_data block_number payload ≡ some packet
    → parse_packet packet ≡ numbered block block_number payload
unfolding encode_data parse_packet get_opcode
parse_packet-encode_data block_number payload packet h e = ground arith

-- An ACK packet that `tftp_encode_ack` builds for a 16-bit block number is read back with its block
-- number.
pub parse_packet-encode_ack :
    (block_number : ℕ)
    → block_number < u16_mod
    → parse_packet (encode_ack block_number) ≡ numbered ack block_number []
unfolding encode_ack parse_packet get_opcode
parse_packet-encode_ack block_number h = ground arith

pub length-zeros : (n : ℕ) → length (zeros n) ≡ n
unfolding zeros
length-zeros zero = refl
length-zeros (suc n) = ap suc (length-zeros n)

-- The message array of an error packet is full, so the packet has 516 bytes whatever the message is.
pub length-encode_error :
    (number : ℕ) (message : Bytes) → length (encode_error number message) ≡ 516
unfolding encode_error
length-encode_error number message = omega (
  arith,
  length-append (take 511 (cstring message)) (zeros (512 - length (take 511 (cstring message)))),
  length-take 511 (cstring message),
  length-zeros (512 - length (take 511 (cstring message))),
)

parse_packet_report :
    (number : ℕ) (body : Bytes)
    → number < u16_mod
    → 0 < length body
    → length body ≤ 512
    → parse_packet (to_be16 (opcode_number error) ++ to_be16 number ++ body)
      ≡ numbered error number body
unfolding parse_packet get_opcode
parse_packet_report number body h lo hi = ground arith

-- An ERROR packet that `tftp_encode_error` builds for a 16-bit code is read back with its code and
-- with the message that it had, cut at 511 bytes, which is then followed by zeros only and by at
-- least one.
pub parse_packet-encode_error :
    (number : ℕ) (message : Bytes)
    → number < u16_mod
    → (k : ℕ) × (0 < k)
      × (parse_packet (encode_error number message)
          ≡ numbered error number (take 511 (cstring message) ++ zeros k))
unfolding encode_error
parse_packet-encode_error number message h =
    let text = take 511 (cstring message) in
    let padded = length-append text (zeros (512 - length text)) in
    (
      512 - length text,
      omega (arith, length-take 511 (cstring message)),
      parse_packet_report number (text ++ zeros (512 - length text)) h
          (omega
            (arith, padded, length-take 511 (cstring message), length-zeros (512 - length text)))
          (omega
            (arith, padded, length-take 511 (cstring message), length-zeros (512 - length text))),
    )

-- A packet with an opcode that has data is copied without a check of its size: exactly the requests
-- above 512 bytes, and the DATA and ERROR packets above 516, run past the arrays that they are
-- copied to.
pub parse_packet_overrun :
    (packet : Bytes)
    → (parse_packet packet ≡ overrun) ↔ (
        ((get_opcode packet ≡ rrq) ⊎ (get_opcode packet ≡ wrq)) × (512 < length packet)
        ⊎ ((get_opcode packet ≡ block) ⊎ (get_opcode packet ≡ error)) × (516 < length packet))
unfolding parse_packet
parse_packet_overrun packet = (
  λ h. ground (arith, length-drop 2 packet, length-drop 4 packet),
  λ h. ground (arith, length-drop 2 packet, length-drop 4 packet),
)
