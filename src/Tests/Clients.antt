-- ===== src/Tests/Clients.antt =====
-- A read request of the client at concrete values.
use file_transfer_over_udp.Prelude.{ℕ, ◌≡◌, refl, true, false, List, [], ◌∷◌, map, arith}
use file_transfer_over_udp.Prelude.Words.{Bytes}
use file_transfer_over_udp.Prelude.Text.{codes}
use file_transfer_over_udp.Wire.{get_opcode}
use file_transfer_over_udp.Wire.Options.{no_options}
use file_transfer_over_udp.Wire.Packet.{encode_ack}
use file_transfer_over_udp.Inet.{Address, ipv4, has_known_family}
use file_transfer_over_udp.Prelude.{◌≤◌, ◌⊎◌, none, some}
use file_transfer_over_udp.Wire.{default_blksize}
use file_transfer_over_udp.Client.Choice.{
  ClientOptions, options_init, options_init-bounds, value_or,
}
use file_transfer_over_udp.Client.Receive.{Receiver, receive_file}
use file_transfer_over_udp.Client.Receive.InOrder.{
  data_arrival, stored, blocks_in_order, IsTransferring,
}
use file_transfer_over_udp.Client.Receive.InOrder.Delivery.{receive_file-blocks_in_order}

abbrev host : Address
host = ipv4 40069 9

-- The client has acknowledged an OACK that set blocks of eight bytes.
abbrev transferring : Receiver
transferring = record {
  request = record {
    is_get = true;
    retries = 3;
    use_options = true;
    options = no_options;
    timeout_s = 2;
    block_size = 8;
    window_size = 4;
    use_tsize = false;
    tsize = 0;
    use_adaptive_timeout = false;
    last_packet_sent = encode_ack 0;
    packet_recv_buffer_size = 516;
    server_may_not_support_options = false;
    file_bytes_transferred = 0;
    server_addr = host;
    answers = [];
    effects = [];
  };
  is_first_receive = false;
  expected_sequence_number = 1;
  retransmissions = 0;
}

transferring-IsTransferring : IsTransferring host 8 516 transferring
unfolding get_opcode encode_ack has_known_family
transferring-IsTransferring = record {
  is_later = refl;
  is_server = refl;
  is_known = refl;
  is_ack = refl;
  no_failure = refl;
  has_size = refl;
  has_room = refl;
}

-- A block that comes too early, a duplicate, and one behind the last.
abbrev blocks_of_host : List (ℕ × Bytes)
blocks_of_host =
    (2, codes "ef")
    ∷ (1, codes "abcdefgh")
    ∷ (1, codes "abcdefgh")
    ∷ (2, codes "ij")
    ∷ (3, codes "kl")
    ∷ []

receive_file-blocks_in_order_example :
    stored (receive_file (map (data_arrival host) blocks_of_host) transferring).1.request.effects
    ≡ codes "abcdefgh" ∷ codes "ij" ∷ []
unfolding blocks_in_order
receive_file-blocks_in_order_example =
    receive_file-blocks_in_order host 8 516 blocks_of_host transferring transferring-IsTransferring
      (ground arith)

-- A window of 16 blocks of a size that is out of range.
abbrev wishes : ClientOptions
wishes = record {
  timeout_s = none;
  block_size = some 4;
  window_size = some 16;
  use_tsize = true;
  use_adaptive_timeout = false;
  is_read_type_list = false;
}

options_init-bounds_example :
    let c = options_init true wishes in
    (1 ≤ c.timeout_s)
    × (c.timeout_s ≤ 255)
    × (8 ≤ c.block_size)
    × (c.block_size ≤ 65464)
    × (1 ≤ c.window_size)
    × (c.window_size ≤ 65535)
    × ((true ≡ true) ⊎ (c.window_size ≡ 1))
    × ((c.options.blksize_option.is_active ≡ true) ⊎ (c.block_size ≡ default_blksize))
    × ((c.options.windowsize_option.is_active ≡ true) ⊎ (c.window_size ≡ 1))
options_init-bounds_example = options_init-bounds true wishes tt (omega arith)

-- The window is asked for, the block size is not.
options_init-wishes :
    ((options_init true wishes).window_size ≡ 16) × ((options_init true wishes).block_size ≡ 512)
unfolding options_init value_or
options_init-wishes = (refl, refl)
