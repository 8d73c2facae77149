-- ===== src/Server/Session/Fetch.antt =====
-- Reading the file and sending a new DATA packet: `fetch_data_octet_async`,
-- `fetch_data_netascii_async`, `end_of_file`, `create_data_packets` and `on_data_available` of
-- tftp/src/server/session.c.
pub mod Blocks
use file_transfer_over_udp.Prelude.{
  ℕ, zero, suc, ◌+◌, ◌-◌, Bool, true, false, not, ◌&&◌, ◌||◌, Option, none, some, List, [], ◌∷◌,
  ◌++◌, length, take, drop, min, ltb, leb, ◌==◌, if◌then◌else◌,
}
use file_transfer_over_udp.Prelude.Words.{Bytes, u16}
use file_transfer_over_udp.Prelude.Text.{codes}
use file_transfer_over_udp.Wire.{not_defined, octet, netascii, invalid, Mode}
use file_transfer_over_udp.Wire.Packet.{data_packet_init}
use file_transfer_over_udp.Window.{slot_index}
use file_transfer_over_udp.Server.Session.{
  Session, Slot, data_job, measure_started, succeeded, failed, Handler, ◌>>◌, skip, fail, assign,
  reading, when, update, Answer, failure,
}
use file_transfer_over_udp.Server.Session.Calls.{
  act, send, submit, submit_timeout, set_error, send_error_to, answer, answered,
}

-- The slot of the packet to send next.
abbrev pub next_slot : Session → ℕ
next_slot s = slot_index s.window_size s.next_data_packet_to_send

-- `fetch_data_octet_async`. The bytes arrive with the event, in `data_read`.
unfoldable pub fetch_data_octet_async : Handler
fetch_data_octet_async =
    assign (λ s. record s {
      last_block_size = if s.incomplete_read then s.last_block_size else 0;
      incomplete_read = false;
    })
    >> submit data_job

-- What the kernel did when the event of a read comes: it put the next bytes of the file, `n` at most
-- and no more than were asked for, behind those that the block has. The second part is their number.
unfoldable pub data_read : ℕ → Session → Session × ℕ
data_read n s =
    let asked = min n (s.block_size - s.last_block_size) in
    let chunk = take asked s.source in
    let slot = s.slots (next_slot s) in
    (
      record s {
        source = drop asked s.source;
        slots =
            update s.slots (next_slot s)
              (record slot { payload = take s.last_block_size slot.payload ++ chunk });
      },
      length chunk,
    )

-- `end_of_file`.
abbrev pub end_of_file : Session → ℕ → Bool
end_of_file s bytes_read =
    if s.is_seekable then (elim s.source [ [] ↦ true | x ∷ xs ↦ false ]) else bytes_read == 0

-- `tftp_data_packet_init` on the slot of the next packet.
abbrev pub init_packet : Session → Session
init_packet s = record s {
  slots =
      update s.slots (next_slot s)
        (record (s.slots (next_slot s)) { block_number = s.next_data_packet_to_send });
}

-- `create_data_packets`: the block is complete if this read filled a whole block or met the end.
unfoldable pub create_data_packets : ℕ → Session → Bool × Session
create_data_packets bytes_read s =
    let t = record s { last_block_size = u16 (s.last_block_size + bytes_read) } in
    if ltb bytes_read t.block_size && not (end_of_file t bytes_read)
    then (false, record t { incomplete_read = true })
    else (true, init_packet t)

-- The block that the loop of `fetch_data_netascii_async` has written, the byte held back and the file
-- behind them; `failed` where a `read` fails.
pub record Encoded : Type 0 where
  pub block : Bytes
  pub held : Option ℕ
  pub unread : Bytes
  pub read_failed : Bool
  pub answers_left : List Answer

abbrev is_control : ℕ → Bool
is_control c = c == b'\n' || c == b'\r'

-- The byte that follows a control character.
abbrev pub control_tail : ℕ → ℕ
control_tail c = if c == b'\n' then b'\r' else 0

-- One byte from the file behind those written: a control character takes a second place, or is held
-- back itself for the next block where the first place was the last.
unfoldable pub put_byte : ℕ → ℕ → Bytes → Encoded → Encoded
put_byte block_size c rest e =
    let written = e.block ++ c ∷ [] in
    if is_control c
    then (if length written == block_size
        then record e { block = written; held = some c; unread = rest }
        else record e { block = written ++ control_tail c ∷ []; unread = rest })
    else record e { block = written; unread = rest }

abbrev pub release_held : Option ℕ → Encoded → Encoded
release_held none e = e
release_held (some c) e = record e { block = e.block ++ c ∷ []; held = none }

-- The loop. Each round writes a byte or stops, so `block_size` rounds are enough.
unfoldable pub netascii_loop : ℕ → ℕ → Encoded → Encoded
netascii_loop zero block_size e = e
netascii_loop (suc fuel) block_size e =
    let r = release_held e.held e in
    let asked = record r { answers_left = elim r.answers_left [ [] ↦ [] | a ∷ rest ↦ rest ] } in
    let read : Encoded = elim r.unread [
      | [] ↦ asked
      | c ∷ rest ↦ netascii_loop fuel block_size (put_byte block_size c rest asked)
    ] in
    let result : Encoded = elim (answer r.answers_left) [
      | failure ↦ record asked { read_failed = true }
      | _ ↦ read
    ] in
    if ltb (length e.block) block_size then result else e

unfoldable pub netascii_block : Session → Encoded
netascii_block s = netascii_loop s.block_size s.block_size (record {
  block = [];
  held = s.netascii_buffer;
  unread = s.source;
  read_failed = false;
  answers_left = s.answers;
})

-- What the loop leaves in the session, and the block in its slot behind it.
abbrev pub after_encoding : Encoded → Session → Session
after_encoding e s = record s {
  netascii_buffer = e.held;
  source = e.unread;
  answers = e.answers_left;
}

abbrev pub store_block : Encoded → Session → Session
store_block e s = record (after_encoding e s) {
  slots =
      update s.slots (next_slot s)
        (record { block_number = s.next_data_packet_to_send; payload = e.block });
  last_block_size = u16 (length e.block);
}

-- `fetch_data_netascii_async`. Without a file its first read fails.
unfoldable pub fetch_data_netascii_async : Handler
fetch_data_netascii_async s =
    let e = netascii_block s in
    if e.read_failed || not s.is_open
    then (
      failed,
      set_error not_defined (codes "Error while reading from source") (after_encoding e s),
    )
    else submit data_job (store_block e s)

-- How the event of a read comes: the read failed, or it had `n` bytes of room.
pub data ReadResult : Type 0 where
  read_error : ReadResult
  read_upto : ℕ → ReadResult

-- A DATA packet as it is sent: the header and the data area of a slot, cut at `size`.
abbrev pub slot_packet : Slot → ℕ → Bytes
slot_packet slot size = data_packet_init slot.block_number ++ take size slot.payload

-- The part of `on_data_available` from the adaptive timeout on: the packet is sent, and the timeout is
-- started if it is the first of the window.
unfoldable pub send_next_packet : Handler
send_next_packet =
    reading (λ s. when (s.is_adaptive_timeout_active && not s.is_measuring) (
      assign (λ t.
        act measure_started
          (record t { is_measuring = true; measured_block = t.next_data_packet_to_send }))))
    >> reading (λ s. send (slot_packet (s.slots (next_slot s)) s.last_block_size))
    >> assign (λ s. record s {
      packets_sent = s.packets_sent + 1;
      last_packet =
          if ltb s.last_block_size s.block_size
          then some s.next_data_packet_to_send
          else s.last_packet;
    })
    >> reading (λ s. when (s.window_begin == s.next_data_packet_to_send) submit_timeout)
    >> assign (λ s. record s { next_data_packet_to_send = u16 (s.next_data_packet_to_send + 1) })

-- The read failed: the session gives up, and tells the client.
unfoldable pub on_read_error : Handler
on_read_error =
    assign (λ s.
      set_error not_defined (codes "Error while reading from source")
        (record s { should_close = true }))
    >> reading (λ s. send_error_to s.client_address)

-- The read brought bytes; a block that is not complete yet is read on.
unfoldable pub on_read : ℕ → Handler
on_read n s =
    let (t, bytes_read) = data_read n s in
    let (complete, u) = create_data_packets bytes_read t in
    if complete then send_next_packet u else (succeeded, u)

-- `on_data_available`. A read without a file has failed.
unfoldable pub on_data_available : ReadResult → Handler
on_data_available read s = elim s.mode [
  | octet ↦ elim read [
    | read_error ↦ on_read_error s
    | read_upto n ↦ if s.is_open then on_read n s else on_read_error s
  ]
  | _ ↦ send_next_packet s
]
