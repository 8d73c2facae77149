-- ===== src/Lib.antt =====
-- A TFTP client and server (RFC 1350 with the options of RFC 2347 to 2349 and the window of RFC 7440).
--
-- The program. The server (tftp/src/server) hands each request to a worker, which runs sessions over a
-- dispatcher of asynchronous input and output. A session is one state machine: the dispatcher calls
-- `tftp_session_handle_event` of tftp/src/server/session.c with the end of a read, of a receive, of a
-- timeout or of a removal, and the handler sends packets and submits the next requests. The client
-- (tftp/src/client/client.c) runs one transfer with blocking calls. Both use the packets of
-- tftp/src/tftp.c.
--
-- The files.
-- - Prelude: names of the libraries, machine words, and C strings as lists of bytes.
-- - Wire, Wire/Packet, Wire/Options, Wire/Request: tftp/src/tftp.c with tftp/include/tftp.h. One function
--   for each `tftp_*` function, over lists of bytes in place of buffers.
-- - Window: `is_in_range` and the places of the stored packets, shared by client and server.
-- - Inet: `sockaddr_equals` and `sockaddr_in6_to_in` of tftp/src/utils/inet.c.
-- - Io: tftp/src/utils/io.c, the sizes of a file.
-- - Server/Session: `struct tftp_session` as a record, and the combinators of its handlers. A handler
--   takes a session to `true`, `false` or a run without end, and to the next session. Calls, Fetch, Timer,
--   Receive, Start and Handle are the functions of tftp/src/server/session.c by what they do; Start has
--   tftp/src/server/session_options.c too, and Files tftp/src/server/session_file.c.
-- - Server/Session/Handle/Trace: the life of a session as a relation, event by event.
-- - Server/Dispatcher, Server/Worker, Server/Pool, Server/Loop, Server/Listener, Server/Connection:
--   dispatcher.c, worker.c with worker_job.c, worker_pool.c, the loop of server.c, listener.c and
--   session_connection.c of tftp/src/server. Server/Loop/Reach has the steps of the
--   server and of its workers in any order, as a relation.
-- - Client: `struct request` of tftp/src/client/client.c and the packets that it sends; Client/Choice
--   is `options_init`; Client/Oack and Client/Receive are `handle_oack_packet`, and `receive_packet` with
--   `receive_file`, as a function of what `recvfrom` gives, one end of a call after the other; Client/Send
--   is `send_file`, turn by turn of its loop; Client/Transfer is `tftp_client_read` and
--   `tftp_client_write`.
-- - Transfer: a client and a session together, on what the network makes of the packets.
-- - Tests: runs, and each result below at concrete values.
--
-- The outside. What the system answers to each call that can fail stands in the field `answers` of a
-- session, in the order of the calls; with none left, a call succeeds, but for the reads and writes of a
-- session that could not open its file. What a session does, packets, writes and submitted requests, is
-- added to its field `actions`. The bytes that a file still has are the field `source`, and the event of a
-- read says for how many bytes the kernel had room. The file system is a parameter.
--
-- Bounds and fuel. Numbers of 8 and 16 bits wrap as in the source. The loops over a string have its length
-- as fuel, since each round takes a byte at least; the loop of a retransmission has 65537 rounds, more
-- than a 16-bit counter has values, and a loop that is still running then never ends; the netascii loop
-- has a round for each byte of a block. The sending phase of the client has a round for each block of its
-- window; the loop of its retransmission has 65537 rounds too.
--
-- Not modelled. The logger, statistics, the sockets of the client, name resolution, io_uring and
-- threads (the server and its workers take turns, a round or an event at a time), the set-up of the
-- server from its parts and its freeing, the clock of the client and the estimates of the adaptive
-- timeout (in the server three actions stand for its calls; in the client the outside says whether
-- time is left), the functions that print options for the log, and the examples and the benchmark.
-- A `write` is complete or fails. The message of a session that gives up has no number in it.
-- Memory behind a string or an address reads as zero.
pub mod Prelude
pub mod Window
pub mod Wire
pub mod Inet
pub mod Io
pub mod Server
pub mod Client
pub mod Transfer
pub mod Tests
