-- ===== src/Lib.antt =====
-- Wirelink: the verification library of the C core.
--
-- The core carries typed messages between a device and a host. Payloads are submitted by
-- application code to mailboxes, are encoded into frames, and travel over a byte stream in which a
-- zero byte ends a frame. This library models the parts named below, function by function, and proves
-- what they promise each other.
--
-- Files and the sources they model
--   Common          numbers, lists, C tests on unsigned integers, byte-addressed memory, the masks
--                   that align a size, and counters of 32 bits
--   Link/Status     include/wirelink/types.h: the status codes
--   Link/Cobs       src/cobs.c: wl_cobs_encoded_max_size, wl_cobs_encode, wl_cobs_decode and
--                   wl_cobs_decode_in_place, with `encode`, `decode`, ... named after them
--   Link/Crc        src/crc.c and src/crc_internal.h: the tables, wl_crc16_byte, the two update functions,
--                   wl_crc16_ccitt_false and wl_crc32c
--   Link/Frame      src/frame.c, src/frame_cobs_crc16.c, src/frame_internal.h and src/link_profile.h: the
--                   packets, their header and sizes. Encoder holds wl_frame_encode and the bounded, generic
--                   and fused encoders, Decoder frame_parse, wl_frame_decode, the two decoders of the
--                   stream and wl_frame_validate_header, Bytes the big-endian fields. The link's own pair
--                   is wl_frame_encode_cobs_crc16 and wl_frame_decode_cobs_crc16.
--   Link/Protocol   src/context.h, src/protocol.c and src/transport.c: the state of a link
--                   (wl_ctx_impl_t) and the events. Transmit holds what is handed to the sink
--                   (wl_submit_data, wl_submit_control, wl_send_ack, wl_send_reliable, ...), Completion
--                   wl_tx_consumed and wl_tx_drained, Receive wl_handle_ack, wl_frame_route_view and
--                   wl_frame_bad_frame, Transaction the calls of src/transport.c, Claims the payloads
--                   that are built in place, Poll wl_poll; Steps makes each call a step, from the
--                   state that wl_init of src/init.c leaves.
--   Mailbox/Outbox  src/outbox.c: its state and wl_outbox_init; Submission, Acquisition and Release
--                   hold wl_outbox_submit_latest, wl_outbox_acquire_copy and wl_outbox_complete,
--                   wl_outbox_reset and wl_outbox_get_stats
--   Mailbox/Fifo    src/fifo.c: its state, wl_fifo_requirements and wl_fifo_init; Producer, Consumer
--                   and Upkeep hold the operations of each side, and wl_fifo_reset and
--                   wl_fifo_get_stats
--   Mailbox/Latest  src/latest.c: its state, wl_latest_requirements and wl_latest_init; Producer,
--                   Consumer and Upkeep as for the FIFO
--
-- How C is modelled
--   A buffer is an address into one memory, a function from addresses to bytes, so that buffers may
--   overlap; 0 is NULL. Out parameters of a single number are cells of their own and are returned. A
--   call returns a status, the new state and the new memory. Unsigned arithmetic wraps where the
--   source can wrap, by `u8`, `u16`, `u32`, `u64` and `size` (64 bits). memcpy reads all its bytes
--   before it writes one. A function that C calls with a context takes it as a value that is not NULL,
--   the initialisers excepted.
--
-- The build is the general one, with WL_LINK_PROFILE_COBS_CRC16 at 0. The link's
-- record has the fields of wl_ctx_impl_t, less the receiving queues and sink_user_data.
--
-- The link and what is around it
--   The transport (wl_sink_fn) is a parameter: a function from the token, the address and the length of
--   a unit to its answer, which calls nothing of the link. The receiving queues are a parameter of
--   wl_poll, `Receiver`: what wl_link_process_rx does to a link, which may decode into memory, route
--   verified frames, refuse frames and count overflows, in any order and number.
--
-- Two sides at once
--   An operation of one side of src/fifo.c makes one load of the other side's cursor, or none, and
--   one store of its own, or none. The load's value is an argument of the operation, and a run
--   (Mailbox/Fifo/Steps) gives it any value that was stored since the one that this side saw last, so
--   that calls overlap and stores become visible late. src/latest.c passes its slots by exchanges of
--   one atomic, which see the last store; only the load before the consumer's exchange may be late
--   (Mailbox/Latest/Steps). The producer's writes to its slot are steps of their own, and so is a
--   reset, which both sides have to be idle for. A counter that both sides advance is advanced by one
--   step of a compare-and-exchange.
--
-- Bounds and fuel
--   The two loops of wl_cobs_decode and the one of wl_frame_decode_cobs_crc16 take the input length as
--   fuel: every round reads a code byte at least, so the fuel outlasts the loop. Every other loop is a recursion on the number of rounds
--   left, or on the 64 bits of a mask. Theorems about lengths assume buffers that a 64 bit machine can
--   hold, and say so.
--
-- Not modelled
--   The receiving queues of a link (src/rx_ring_bipbuf.c, src/unit_rx.c, and wl_feed_unit,
--   wl_feed_bytes, the wl_rx_* calls and wl_frame_process_stream of src/protocol.c), for which
--   `Receiver` stands; of src/transport.c what works on those queues, and three accessors; the checks of
--   wl_init; wl_crc_size_bytes, the schedule, bulk transfer, RPC, endpoints and the pump of src/; the
--   runtimes and adapters, which reach devices; the bindings, tools, examples, tests and benchmarks.
pub mod Common
pub mod Link
pub mod Mailbox
