-- ===== src/Server/Session/Pending.antt =====
-- The count of pending jobs: what was submitted and has not been completed.
pub mod Packets
pub mod Reads
pub mod Whole
pub mod Close
use mathlib.Core.List.{append_assoc}
use file_transfer_over_udp.Prelude.{
  ℕ, zero, suc, ◌+◌, ◌%◌, ◌≡◌, refl, Bool, true, false, not, ◌&&◌, ◌||◌, Bool-cases, inl, inr,
  Option, none, some, List, [], ◌∷◌, ◌++◌, drop, if◌then◌else◌, arith,
}
use file_transfer_over_udp.Prelude.Words.{Bytes, u8_mod, u8, u16, u16_mod, sub_u16}
use file_transfer_over_udp.Inet.{Address}
use file_transfer_over_udp.Server.Session.{
  Session, Job, timeout_job, timeout_removal, packet_job, packet_removal, data_job, Action, sent,
  submitted, measure_started, measure_stopped, backed_off, reported, written, Outcome, succeeded,
  failed, diverged, Handler, ◌>>◌, skip, fail, assign, reading, when,
}
use file_transfer_over_udp.Server.Session.Calls.{
  act, answered, call, send_to, send, submit, submit_timeout, submit_cancel_timeout, recv_async,
  recv_async_cancel, send_error_to, oack_packet_init, send_oack,
}
use file_transfer_over_udp.Server.Session.Receive.{
  Received, receive_error, datagram, get_cumulative_ackd_payload_size, report_client_error,
  accept_data, on_data, accept_ack, on_ack, refuse_packet, refuse_stranger, on_client_packet,
  on_packet_received,
}
use file_transfer_over_udp.Server.Session.Fetch.{
  ReadResult, read_error, read_upto, fetch_data_octet_async, fetch_data_netascii_async,
  send_next_packet, on_read_error, on_read, on_data_available, data_read, store_block,
  create_data_packets, netascii_block,
}
use file_transfer_over_udp.Server.Session.Timer.{
  get_data_packet, retransmit, give_up, send_again, on_timeout,
}
use file_transfer_over_udp.Server.Session.Files.{FileSystem}
use file_transfer_over_udp.Server.Session.Start.{ServerInfo, session_parse_options, prepare, start}
use file_transfer_over_udp.Wire.{word_at}
use file_transfer_over_udp.Wire.Packet.{encode_ack}
use file_transfer_over_udp.Prelude.Text.{cstring}

-- The requests among the actions.
abbrev pub submissions : List Action → ℕ
submissions [] = 0
submissions (submitted job ∷ rest) = suc (submissions rest)
submissions (_ ∷ rest) = submissions rest

pub submissions-append : (a b : List Action) → submissions (a ++ b) ≡ submissions a + submissions b
submissions-append [] b = omega arith
submissions-append (submitted job ∷ a) b = omega (arith, submissions-append a b)
submissions-append (_ ∷ a) b = omega (arith, submissions-append a b)

-- The later session has as many more jobs pending as it has submitted, counting in a `uint8_t`.
abbrev pub IsBalanced : Session → Session → Type 0
IsBalanced s t =
    (t.pending_jobs + submissions s.actions) % u8_mod
    ≡ (s.pending_jobs + submissions t.actions) % u8_mod

-- A handler that keeps the count.
pub record Balanced (h : Handler) : Type 0 where
  pub at : (s : Session) → IsBalanced s (h s).1

pub Balanced->> : {f g : Handler} → Balanced f → Balanced g → Balanced (f >> g)
unfolding ◌>>◌
Balanced->> {f} {g} bf bg = record { at = λ s. ground (arith, bf.at s, bg.at (f s).1) }

pub Balanced-reading :
    {h : Session → Handler} → ((s : Session) → Balanced (h s)) → Balanced (reading h)
unfolding reading
Balanced-reading k = record { at = λ s. (k s).at s }

pub Balanced-when : (b : Bool) {h : Handler} → Balanced h → Balanced (when b h)
unfolding when skip
Balanced-when b {h} k = record { at = λ s. ground (arith, k.at s) }

pub Balanced-if :
    (b : Bool) {f g : Handler} → Balanced f → Balanced g → Balanced (if b then f else g)
Balanced-if true x y = x
Balanced-if false x y = y

pub Balanced-skip : Balanced skip
unfolding skip
Balanced-skip = record { at = λ s. refl }

pub Balanced-fail : Balanced fail
unfolding fail
Balanced-fail = record { at = λ s. refl }

pub Balanced-assign :
    (f : Session → Session) → ((s : Session) → IsBalanced s (f s)) → Balanced (assign f)
unfolding assign
Balanced-assign f k = record { at = k }

pub Balanced-call :
    (f : Session → Session) → ((s : Session) → IsBalanced s (f (answered s))) → Balanced (call f)
unfolding call
Balanced-call f k = record { at = λ s. ground (arith, k s) }

pub act-IsBalanced : (s : Session) (a : Action) → submissions (a ∷ []) ≡ 0 → IsBalanced s (act a s)
act-IsBalanced s a h = let e = submissions-append s.actions (a ∷ []) in omega (arith, e, h)

pub send_to-Balanced : (address : Address) (packet : Bytes) → Balanced (send_to address packet)
unfolding send_to
send_to-Balanced address packet = Balanced-call _ λ s. act-IsBalanced (answered s) _ refl

pub send-Balanced : (packet : Bytes) → Balanced (send packet)
unfolding send
send-Balanced packet = record { at = λ s. (send_to-Balanced s.client_address packet).at s }

pub submit-Balanced : (job : Job) → Balanced (submit job)
unfolding submit
submit-Balanced job =
    Balanced-call _ λ s. omega (arith, submissions-append s.actions (submitted job ∷ []))

pub submit_timeout-Balanced : Balanced submit_timeout
unfolding submit_timeout
submit_timeout-Balanced = Balanced->> (submit-Balanced _) (Balanced-assign _ λ s. refl)

pub submit_cancel_timeout-Balanced : Balanced submit_cancel_timeout
unfolding submit_cancel_timeout
submit_cancel_timeout-Balanced = Balanced->> (submit-Balanced _) (Balanced-assign _ λ s. refl)

pub send_error_to-Balanced : (address : Address) → Balanced (send_error_to address)
unfolding send_error_to
send_error_to-Balanced address =
    Balanced->> (Balanced-call _ λ s. refl) (Balanced-reading λ s. send_to-Balanced address _)

pub oack_packet_init-Balanced : Balanced oack_packet_init
unfolding oack_packet_init
oack_packet_init-Balanced = Balanced-call _ λ s. refl

pub send_oack-Balanced : Balanced send_oack
unfolding send_oack
send_oack-Balanced =
    Balanced->>
      (Balanced->>
        (Balanced->> oack_packet_init-Balanced (
          Balanced-reading
            λ s. Balanced-when _ (Balanced-assign _ λ t. act-IsBalanced t measure_started refl)))
        submit_timeout-Balanced)
      (Balanced-reading λ s. send-Balanced _)

pub recv_async-Balanced : Balanced recv_async
unfolding recv_async
recv_async-Balanced = submit-Balanced packet_job

pub recv_async_cancel-Balanced : Balanced recv_async_cancel
unfolding recv_async_cancel
recv_async_cancel-Balanced = submit-Balanced packet_removal
