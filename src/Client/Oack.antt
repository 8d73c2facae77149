-- ===== src/Client/Oack.antt =====
-- `handle_oack_packet` of tftp/src/client/client.c.
use file_transfer_over_udp.Prelude.{
  ℕ, Bool, true, false, not, ◌&&◌, List, [], ◌∷◌, length, drop, ◌==◌, if◌then◌else◌,
}
use file_transfer_over_udp.Prelude.Words.{Bytes, u16, u8}
use file_transfer_over_udp.Prelude.Text.{codes}
use file_transfer_over_udp.Wire.{invalid_options}
use file_transfer_over_udp.Wire.Options.{
  OptionKind, blksize, timeout, tsize, windowsize, read_type, kinds, Options, get, set, no_options,
  parse_options,
}
use file_transfer_over_udp.Wire.Options.Number.{strtoul}
use file_transfer_over_udp.Server.Session.Start.{asks_adaptive}
use file_transfer_over_udp.Client.{Request, succeeds, answered, send_error, packet_buffer_size}

-- The variables of the loop over the acknowledged options.
pub record Acknowledged : Type 0 where
  pub request : Request
  pub block_size : ℕ
  pub timeout : ℕ
  pub window_size : ℕ
  pub contains_unrequested_options : Bool

-- What an acknowledged option that was requested sets.
unfoldable pub read_option : OptionKind → Bytes → Acknowledged → Acknowledged
read_option blksize value a = record a { block_size = u16 (strtoul value).value }
read_option timeout value a =
    if a.request.use_adaptive_timeout then a else record a { timeout = u16 (strtoul value).value }
read_option tsize value a = record a {
  request = record a.request { tsize = (strtoul value).value };
}
read_option windowsize value a = record a { window_size = u16 (strtoul value).value }
read_option read_type value a = a

-- The loop; an option that was not requested ends it.
unfoldable pub read_options : List OptionKind → Options → Acknowledged → Acknowledged
read_options [] ackd a = a
read_options (o ∷ rest) ackd a =
    let next = read_options rest ackd (read_option o (get ackd o).value a) in
    let skipped = read_options rest ackd a in
    if (get ackd o).is_active
    then (if (get a.request.options o).is_active
        then next
        else record a { contains_unrequested_options = true })
    else skipped

-- The acknowledged options, and whether the adaptive timeout is among them; its scan is the one of the
-- server.
unfoldable pub acknowledged_options : Bytes → Request → Options × Bool
acknowledged_options values r =
    let ackd = parse_options no_options (length values) values in
    if r.use_adaptive_timeout && r.is_get
    then (if asks_adaptive (length values) (length values) values
        then (set ackd timeout (record { is_active = true; value = codes "adaptive" }), true)
        else (ackd, false))
    else (ackd, r.use_adaptive_timeout)

-- The new sizes, with the `realloc` of the buffer.
unfoldable pub apply_sizes : Acknowledged → Request → Bool × Request
apply_sizes a r =
    let sized = record r {
      block_size = a.block_size;
      window_size = a.window_size;
      packet_recv_buffer_size = packet_buffer_size a.block_size;
    } in
    if a.block_size == r.block_size && a.window_size == r.window_size
    then (true, r)
    else (succeeds r.answers, answered sized)

-- The new timeout, with its `setsockopt`.
unfoldable pub apply_timeout : Acknowledged → Request → Bool × Request
apply_timeout a r =
    if not r.use_adaptive_timeout && not (a.timeout == r.timeout_s)
    then (succeeds r.answers, answered (record r { timeout_s = u8 a.timeout }))
    else (true, r)

-- A request for a listing that was not acknowledged is dropped.
unfoldable pub drop_read_type : Options → Request → Request
drop_read_type ackd r =
    if (get r.options read_type).is_active && not (get ackd read_type).is_active
    then record r {
      options = set r.options read_type (record (get r.options read_type) { is_active = false });
    }
    else r

-- `handle_oack_packet`.
unfoldable pub handle_oack_packet : Bytes → Request → Bool × Request
handle_oack_packet packet r =
    let (ackd, is_adaptive) = acknowledged_options (drop 2 packet) r in
    let a = read_options kinds ackd (record {
      request = record r { use_adaptive_timeout = is_adaptive };
      block_size = r.block_size;
      timeout = r.timeout_s;
      window_size = r.window_size;
      contains_unrequested_options = false;
    }) in
    let (sized, s) = apply_sizes a a.request in
    let (timed, t) = apply_timeout a s in
    if a.contains_unrequested_options
    then (false, send_error invalid_options a.request)
    else if not sized
    then (false, s)
    else if not timed
    then (false, t)
    else (true, drop_read_type ackd t)
