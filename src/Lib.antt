-- ===== src/Lib.antt =====
-- libnemesi, an RTSP/RTP client library: the path of a received RTP packet, from the validity check
-- of its header through the slot of the buffer pool and the playout buffer to the reader that takes
-- it out again, with the bookkeeping of its source and the RTCP reports about it; the RTCP packets
-- that come in; and the RTSP client that sets all this up and controls it.
--
-- Parts, and the file that models each:
--
--   Packet      the RTP packet as bytes in a slot, and the header's fields (`rtp_pkt` and the
--               RTP_PKT macros of src/nemesi/rtp.h)
--   Bufferpool  the pool of slots and its free list, `buffer_pool` of src/bufferpool/bufferpool.h:
--               bpinit, bpenlarge, bpget, bpfree, bpkill. Bufferpool/FreeList holds the invariant
--               IsPool, Bufferpool/Get and Bufferpool/Free show what the operations do to it.
--   Playout     the playout buffer, `playout_buff`: poinit, poadd, podel, bprmv. Playout/Unlink and
--               Playout/Insert take an element out of the doubly linked list and put one in,
--               Playout/Locate describes the loop of poadd, Playout/Add its results, Playout/Order
--               the order of the packets, Playout/Joint the playout buffer together with its pool.
--   Rtp/Buffer  the reader of src/rtp/rtp_buffer.c: rtp_get_n_pkt, rtp_get_pkt, rtp_get_next_pt,
--               rtp_rm_pkt, rtp_rm_all_pkts
--   Rtp/Header  rtp_hdr_val_chk of src/rtp/rtp_recv.c, and the place of the payload
--   Rtp/Source  the statistics of a source, rtp_init_seq and rtp_update_seq of src/rtp/rtp_recv.c;
--               Rtp/Source/Active is the queue of active sources of src/rtp/rtp_ssrc_queue.c
--   Rtp/Lookup  the sources of a session, rtp_ssrc_init of src/rtp/rtp_ssrc_queue.c;
--               Rtp/Lookup/Check is the lookup rtp_ssrc_check, Rtp/Lookup/Known follows a new
--               source, Rtp/Lookup/Collision the failures and collisions
--   Rtp/Recv    what a packet does to the statistics of its source; Rtp/Recv/Datagram is the whole of
--               rtp_recv of src/rtp/rtp_recv.c, from bpget on. Rtp/Recv/Held shows what becomes of a
--               slot that takes no packet, Rtp/Recv/Seek what becomes of the statistics after a seek.
--   Rtp/Receive the last part of rtp_recv, which stores a packet or drops it;
--               Rtp/Receive/Store shows what that does to pool and playout buffer
--   Rtp/Fill    rtp_fill_buffer and rtp_get_next_ts of src/rtp/rtp_buffer.c. Rtp/Fill/Reader shows that
--               the playout buffer gives a parser its packets as Parsers/Fill asks, Rtp/Fill/Call what
--               a call leaves.
--   Rtp/Transport  the options of the transport of a session, src/rtp/rtp_transport.c: setting them,
--               reading them (Rtp/Transport/Get), the wrappers, and what is read once it is set
--   Parsers     the depacketizers of src/parsers/: Parsers/Mpv, Parsers/H263, Parsers/M4v, Parsers/H264.
--               Parsers.antt has the buffer of a frame that they share (src/parsers/rtp_utils.c),
--               Parsers/Fill the loop that calls them with the interface to the packets,
--               Parsers/Frame what a parser promises and the frame that the loop then makes.
--               Parsers/Text has the decoders of hexadecimal and base64 text, Parsers/Config what the
--               parsers read out of a description.
--   Rtcp/Events the queue of timed events of src/rtcp/rtcp_events.c
--   Rtcp/Report the receiver report of src/rtcp/rtcp_report.c
--   Rtp/State   an RTP session with all that the receiving functions change in it
--   Rtcp/Packet the header of an RTCP packet in a datagram (src/nemesi/rtcp.h)
--   Rtcp/Check  rtcp_hdr_val_chk of src/rtcp/rtcp_recv.c; Rtcp/Check/Tiles describes the datagrams that
--               it accepts
--   Rtcp/Sdes   source descriptions, src/rtcp/rtcp_sdes.c; Rtcp/Sdes/Learn describes what they leave
--   Rtcp/Receive  rtcp_recv and rtcp_parse_pkt; Rtcp/Receive/Visit tells which packets are handled
--   Rtsp/Text, Rtsp/Token  the functions of the C library that the RTSP code reads text with
--   Rtsp/Buffer the input buffer: full_msg_rcvd, remove_pkt and the end of rtsp_recv of
--               src/rtsp/rtsp_internals.c, with their bounds
--   Rtsp/Session  sessions and media, and the cursor get_curr_sess (src/rtsp/rtsp_sessions.c);
--               Rtsp/Session/Walk follows the cursor, Rtsp/Session/Media and Rtsp/Session/Layout make
--               the sessions of a description (set_rtsp_sessions, set_rtsp_media), and
--               Rtsp/Session/Layout/Kept says which media of the description they have
--   Rtsp/Thread the RTSP thread and its reset (rtsp_reinit)
--   Rtsp/Init, Rtsp/Open, Rtsp/Control  the interface, src/rtsp/rtsp.c: rtsp_init; rtsp_open; rtsp_close,
--               rtsp_pause, rtsp_play, rtsp_stop and rtsp_wait
--   Rtsp/Send, Rtsp/Setup  the requests, src/rtsp/rtsp_send.c
--   Rtsp/Reply  check_response and check_status of src/rtsp/rtsp_internals.c
--   Rtsp/Handlers, Rtsp/Describe  the handlers of the answers, src/rtsp/rtsp_handlers.c
--   Rtsp/Machine  the state machine, src/rtsp/rtsp_state_machine.c, and handle_rtsp_pkt; below it are
--               what its parts leave as it is, what one message does, and what a refusal does
--   Rtsp/Loop   the loop of the thread `rtsp`, and its end (Rtsp/Loop/Ends); Rtsp/Reach what a thread goes
--               through
--   Utils/Timeval  src/utils/timeval.c
--   Utils/Url   src/utils/urltokenize.c; Utils/Url/Parts takes a URL apart again
--   Utils/Address  the socket addresses of src/utils/transport.c
--   Common      Boolean tests, lists by position, lists without repetition, and integers over the
--               native natural numbers, with their lemmas
--
-- How they meet: a slot comes from bpget, is filled, and goes into the list by poadd; bprmv takes it
-- out of the list and gives it back to the pool. Playout.Joint.IsJoint says that the slots of the
-- pool are the free ones, those in the list and those held elsewhere, each once; the reader's
-- functions work on that state. rtp_update_seq tells when a source goes into the queue of active
-- sources. rtcp_build_rr reads the statistics that rtp_update_seq keeps, and rtcp_schedule orders
-- its events by nms_timeval_subtract.
--
-- A command of Rtsp/Control sends a request and marks the thread busy. Rtsp/Loop puts what comes back
-- into the buffer, takes whole messages out of it, and hands each to the state machine, which calls
-- the handler of the answer and sends what comes after it. The functions that send requests leave them
-- in a list; a `Given` holds what the system gives during one event.
--
-- rtp_fill_buffer calls the parser of the next packet's type until it has a frame. A parser gets the
-- packets through the interface Queue, which the reader fills; what it promises is the interface
-- Assembles, which each parser fills with the pieces that it makes of packets.
--
-- How the code is represented: an update of a struct through a pointer returns the new value. An index
-- that may be -1, and a pointer that may be NULL, is an Option. Unsigned arithmetic has its wrap
-- written out; `int` and `time_t` values are unbounded integers, which agree with the C ones while no
-- signed overflow occurs. The reads of network order give values in host order. What malloc and the
-- pthread calls return is an argument, except in bpenlarge, whose two calls of realloc the code does
-- not test: they are taken to succeed. The conversions of floating point numbers and the time of day are arguments too.
-- A C double is a value of an arbitrary type.
--
-- The static cursor of get_curr_sess is part of the one RTSP thread. The text of a request is its parts;
-- the space for it is taken to be enough. Numbers in text are read without a bound.
-- The text in the input buffer ends where a 0 lies in memory, which need not be where the bytes
-- received end (Rtsp/Buffer). A session's name
-- that `wait_for` points to is looked up by the session's place, and one that is gone counts as NULL.
--
-- Loops: thread_links runs by its number of rounds. bpget_loop has fuel for two rounds, enough as a
-- pool that has grown has a free slot. poadd_loop, get_loop and clear_loop have fuel for one round
-- more than the packets that `pocount` announces; the theorems on these functions show that they end
-- with it. parse_loop of RTCP and its check have fuel for every word of the datagram, and
-- items_loop for every byte before the end; each round takes a word, or two bytes, at least. head_loop
-- and the loops over the lines of an answer have fuel for every byte of the buffer, and each round
-- goes on by a byte at least. fill_loop has fuel for each packet of a frame, which a call of the
-- parser takes out of the buffer, stap_loop for each byte of an aggregate, and sets_loop for each
-- character of its text. message_loop has fuel for every byte of the buffer and one round more; that is
-- enough where a 0 lies behind the memory that remove_pkt gets, while otherwise the text of
-- a message may end anywhere. The other loops go along a list.
--
-- Not modelled: mutexes (each function holds its own for its whole run, and a bpget that waits
-- returns the result `waiting`), log messages, sockets, the transport strings of RTSP, reading a
-- description (src/sdp), whose result is an argument, the payload types, the parsers of MPEG audio,
-- AAC, Speex, Theora and Vorbis, sending RTCP packets other than the receiver report, rtsp_seek, and
-- rtp_fill_buffers. rtp_recv takes what recvfrom gives as an argument, a datagram that fits its slot.
pub mod Common
pub mod Packet
pub mod Bufferpool
pub mod Playout
pub mod Rtp
pub mod Utils
pub mod Rtcp
pub mod Rtsp
pub mod Parsers
