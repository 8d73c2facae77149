-- ===== src/Server/Session/Pending/Whole.antt =====
-- A session has as many jobs pending as it has submitted and not seen completed.
use file_transfer_over_udp.Prelude.{
  true, ℕ, ◌+◌, ◌%◌, ◌≡◌, refl, false, Option, none, some, List, [], ◌∷◌, drop, arith,
}
use file_transfer_over_udp.Prelude.Words.{Bytes, u8_mod}
use file_transfer_over_udp.Server.Session.{Session, sent, reported, Handler, ◌>>◌, skip}
use file_transfer_over_udp.Server.Session.Calls.{answered}
use file_transfer_over_udp.Server.Session.Handle.{
  Event, start_event, send_first_ack, on_start, dispatch, fetch_next, close_or_idle, handle_event,
}
use file_transfer_over_udp.Server.Session.Calls.{job_done}
use file_transfer_over_udp.Server.Session.Files.{
  FileSystem, session_file_init, file, no_file, SessionFile,
}
use file_transfer_over_udp.Server.Session.Start.Storage.{Places}
use file_transfer_over_udp.Server.Session.Start.{
  ServerInfo, session_parse_options, prepare, start, RequestStrings, open_request, with_file,
  identify, session_options_init, apply_option, apply_options, option_places, recognize_options,
  asks_directory,
}
use file_transfer_over_udp.Wire.Packet.{encode_ack}
use file_transfer_over_udp.Prelude.{◌∙◌}
use file_transfer_over_udp.Server.Session.{combinators}
use file_transfer_over_udp.Server.Session.Handle.{
  timeout_expired, timeout_cancelled, timeout_removed, timeout_removal_failed, packet_received,
  packet_cancelled, packet_removed, packet_removal_failed, data_available,
}
use file_transfer_over_udp.Server.Session.Handle.Trace.{completed}
use file_transfer_over_udp.Server.Session.Pending.Packets.{on_packet_received-Balanced}
use file_transfer_over_udp.Server.Session.Pending.Reads.{
  on_timeout-Balanced, on_data_available-Balanced, fetch_data_octet_async-Balanced,
  fetch_data_netascii_async-Balanced,
}
use file_transfer_over_udp.Wire.Options.{
  OptionKind, blksize, timeout, tsize, windowsize, read_type, kinds,
}
use file_transfer_over_udp.Server.Session.{RequestType, read_request, write_request}
use file_transfer_over_udp.Server.Session.Pending.{
  IsBalanced, Balanced, Balanced->>, Balanced-reading, Balanced-when, Balanced-if, Balanced-skip,
  Balanced-assign, Balanced-call, act-IsBalanced, send_error_to-Balanced, send_oack-Balanced,
  recv_async-Balanced, submissions,
}

-- Reading the options touches neither the count nor the actions.
abbrev Kept : Session → Session → Type 0
Kept s t = (t.pending_jobs ≡ s.pending_jobs) × (t.actions ≡ s.actions)

apply_option-Kept :
    (size : Option ℕ) (str : Bytes) (places : Places) (o : OptionKind) (s : Session)
    → Kept s (apply_option size str places o s)
unfolding apply_option
apply_option-Kept size str places blksize s = ground arith
apply_option-Kept size str places timeout s = ground arith
apply_option-Kept size str places tsize s = ground arith
apply_option-Kept size str places windowsize s = ground arith
apply_option-Kept size str places read_type s = ground arith

apply_options-Kept :
    (size : Option ℕ) (str : Bytes) (places : Places) (l : List OptionKind) (s : Session)
    → Kept s (apply_options size str places l s)
unfolding apply_options
apply_options-Kept size str places [] s = (refl, refl)
apply_options-Kept size str places (o ∷ rest) s =
    let one = apply_option-Kept size str places o s in
    let more = apply_options-Kept size str places rest (apply_option size str places o s) in
    (more.0 ∙ one.0, more.1 ∙ one.1)

recognize_options-Kept :
    (info : ServerInfo) (str : Bytes) (s : Session) → Kept s (recognize_options info str s)
unfolding recognize_options
recognize_options-Kept info str s = ground arith

asks_directory-Kept :
    (info : ServerInfo) (r : RequestType) (strings : RequestStrings) (s : Session)
    → Kept s (asks_directory info r strings s).1
unfolding asks_directory
asks_directory-Kept info write_request strings s = (refl, refl)
asks_directory-Kept info read_request strings s = ground arith

-- The start.
prepare-Balanced :
    (info : ServerInfo) (size : Option ℕ) (str : Option Bytes) → Balanced (prepare info size str)
unfolding prepare session_parse_options
prepare-Balanced info size str =
    Balanced->>
      (Balanced->> (Balanced->> (Balanced-assign _ (negotiated str)) (Balanced-call _ λ s. refl))
        (Balanced-call _ λ s. refl))
      (Balanced-reading λ s. Balanced-when _ (
        Balanced->> (Balanced-reading λ t. send_error_to-Balanced _) (Balanced-assign _ λ t. refl)))
  where
    negotiated :
        (str : Option Bytes) (s : Session)
        → IsBalanced s (elim str [ none ↦ s | some x ↦ session_parse_options info size x s ])
    negotiated none s = refl
    negotiated (some x) s =
        let first = recognize_options-Kept info x s in
        let then_ =
          apply_options-Kept size x (option_places info x) kinds (recognize_options info x s) in
        ground (arith, first, then_)

with_file-Balanced :
    (info : ServerInfo) (str : Option Bytes) (f : SessionFile) → Balanced (with_file info str f)
unfolding with_file
with_file-Balanced info str (no_file code text) = record { at = λ s. refl }
with_file-Balanced info str (file content seekable size) = record {
  at = λ s.
      (prepare-Balanced info size str).at
        (record s { source = content; is_open = true; is_seekable = seekable });
}

open_request-Balanced :
    (info : ServerInfo) (fs : FileSystem) (request : Bytes)
    → Balanced (open_request info fs request)
unfolding open_request
open_request-Balanced info fs request = record {
  at = λ s.
      let strings = session_options_init (drop 2 request) in
      let named = record s { mode = strings.mode } in
      let r = asks_directory info s.request_type strings named in
      let kept = asks_directory-Kept info s.request_type strings named in
      let f = session_file_init fs strings.path info.root s.request_type r.0 in
      let opened = (with_file-Balanced info strings.options_str f).at r.1 in
      ground (arith, kept, opened);
}

identify-Balanced : (request : Bytes) → Balanced (identify request)
unfolding identify
identify-Balanced request = Balanced->> (Balanced-assign _ λ s. refl) (Balanced-call _ λ s. refl)

start-Balanced :
    (info : ServerInfo) (fs : FileSystem) (request : Bytes) → Balanced (start info fs request)
unfolding start
start-Balanced info fs request = record {
  at = λ s.
      let opened =
        (Balanced->> (identify-Balanced request) (open_request-Balanced info fs request)).at s in
      ground (arith, opened);
}

-- A whole event.
on_start-Balanced :
    (info : ServerInfo) (fs : FileSystem) (request : Bytes) → Balanced (on_start info fs request)
unfolding on_start send_first_ack
on_start-Balanced info fs request = Balanced->> (start-Balanced info fs request) (
    Balanced-reading λ s. Balanced-when _ (
      Balanced->>
        (Balanced-reading λ t. Balanced-if _ send_oack-Balanced (first_answer t.request_type))
        recv_async-Balanced))
  where
    first_answer :
        (r : RequestType)
        → Balanced (elim r [ write_request ↦ send_first_ack | read_request ↦ skip ])
    first_answer write_request = record {
      at = λ s.
          let one = act-IsBalanced (answered s) (sent s.client_address (encode_ack 0)) refl in
          ground (arith, one);
    }
    first_answer read_request = Balanced-skip

fetch_next-Balanced : Balanced fetch_next
unfolding fetch_next
fetch_next-Balanced = Balanced-reading λ s. Balanced-when _ (
    Balanced->> (Balanced-assign _ λ t. refl) (record {
      at = λ t.
          let whole = (fetch_data_octet_async-Balanced).at t in
          let lines = (fetch_data_netascii_async-Balanced).at t in ground (arith, whole, lines);
    }))

-- The later session has as many more jobs pending as it has submitted, less those completed.
abbrev pub IsSettled : ℕ → Session → Session → Type 0
IsSettled done s t =
    (t.pending_jobs + submissions s.actions + done) % u8_mod
    ≡ (s.pending_jobs + submissions t.actions) % u8_mod

dispatch-IsSettled :
    (info : ServerInfo) (e : Event) (s : Session) → IsSettled (completed e) s (dispatch info e s).1
unfolding dispatch combinators
dispatch-IsSettled info (start_event fs request) s =
    let b = (on_start-Balanced info fs request).at s in omega (arith, b)
dispatch-IsSettled info timeout_expired s =
    let b = (on_timeout-Balanced).at (job_done s) in ground (arith, b)
dispatch-IsSettled info timeout_cancelled s = omega arith
dispatch-IsSettled info timeout_removed s = omega arith
dispatch-IsSettled info timeout_removal_failed s = omega arith
dispatch-IsSettled info (packet_received r) s =
    let t = job_done s in
    let b = (on_packet_received-Balanced r).at t in
    let again = (Balanced->> (on_packet_received-Balanced r) recv_async-Balanced).at t in
    ground (arith, b, again)
dispatch-IsSettled info packet_cancelled s = omega arith
dispatch-IsSettled info packet_removed s = omega arith
dispatch-IsSettled info packet_removal_failed s = omega arith
dispatch-IsSettled info (data_available r) s =
    let b = (on_data_available-Balanced r).at (record (job_done s) { is_fetching_data = false }) in
    omega (arith, b)

IsSettled->> :
    (f : Handler) {g : Handler} (done : ℕ) (s : Session)
    → IsSettled done s (f s).1
    → Balanced g
    → IsSettled done s ((f >> g) s).1
unfolding ◌>>◌
IsSettled->> f {g} done s a b = let more = b.at (f s).1 in ground (arith, a, more)

close_or_idle-IsSettled :
    (done : ℕ) (s t : Session) → IsSettled done s t → IsSettled done s (close_or_idle t).1
unfolding close_or_idle
close_or_idle-IsSettled done s t h =
    let one = act-IsBalanced t reported refl in ground (arith, h, one)

-- Whatever an event is and however it ends, the session's `pending_jobs` grows by the number of
-- jobs that the event submits and falls by the one that it completes, counting in a `uint8_t`; a
-- start completes none.
pub handle_event-IsSettled :
    (info : ServerInfo) (e : Event) (s : Session)
    → IsSettled (completed e) s (handle_event info e s).1
unfolding handle_event
handle_event-IsSettled info e s =
    let whole =
      IsSettled->> (dispatch info e) (completed e) s (dispatch-IsSettled info e s)
        fetch_next-Balanced in
    let end = close_or_idle-IsSettled (completed e) s ((dispatch info e >> fetch_next) s).1 whole in
    ground (arith, whole, end)
