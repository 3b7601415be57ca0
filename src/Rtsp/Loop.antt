-- ===== src/Rtsp/Loop.antt =====
-- What the thread does with what it reads: the body of the loop of `rtsp` in
-- src/rtsp/rtsp_state_machine.c, with rtsp_recv of src/rtsp/rtsp_internals.c.
pub mod Ends
use libnemesi.Common.{
  ℕ, zero, suc, Bool, true, false, not, none, some, List, [], ◌++◌, ltb, if◌then◌else◌,
}
use libnemesi.Rtsp.Buffer.{RtspBuffer, full_msg_rcvd, append_read}
use libnemesi.Rtsp.Thread.{RtspThread, rtsp_reinit}
use libnemesi.Rtsp.Send.{Request, Ran, ret, Given}
use libnemesi.Rtsp.Machine.{is_interleaved, handle_rtsp_pkt}

-- "if (handle_rtsp_pkt(rtsp_th)) rtsp_reinit(rtsp_th);"
unfoldable pub or_reset : Ran → Ran
unfolding rtsp_reinit
or_reset Ran.crashed = Ran.crashed
or_reset (ret true t rs) = ret true t rs
or_reset (ret false t rs) = elim (rtsp_reinit t) [ none ↦ Ran.crashed | some t' ↦ ret false t' rs ]

-- The loop over the messages in the buffer; out of fuel, stopped with the thread as it is.
pub data Looped : Type 0 where
  waits : RtspThread → List Request → Looped
  crashed : Looped
  no_fuel : Looped

abbrev pub after : List Request → Looped → Looped
after rs (waits t rs') = waits t (rs ++ rs')
after rs Looped.crashed = Looped.crashed
after rs no_fuel = no_fuel

abbrev pub goes_on : Ran → (RtspThread → Looped) → Looped
goes_on (ret ok t rs) rest = after rs (rest t)
goes_on Ran.crashed rest = Looped.crashed

abbrev pub put_buffer : RtspThread → RtspBuffer → RtspThread
put_buffer t b = record t { in_buffer = b }

-- `given` is what the system gives for each of the messages.
unfoldable pub message_loop : ℕ → (ℕ → Given) → RtspThread → Looped
unfolding full_msg_rcvd handle_rtsp_pkt or_reset
message_loop zero given t = no_fuel
message_loop (suc fuel) given t =
    let (full, b) = full_msg_rcvd (is_interleaved t) t.in_buffer in
    let rest : RtspThread → Looped = λ t'. message_loop fuel given t' in
    if not (ltb 0 t.in_buffer.size)
    then waits t []
    else if not full
    then waits (put_buffer t b) []
    else goes_on (or_reset (handle_rtsp_pkt (given fuel) (put_buffer t b))) rest

-- What a read gives, over TCP or on the first stream of SCTP: an error, after which the thread ends, the end of the connection, or bytes.
pub data Read : Type 0 where
  failed closed : Read
  got : List ℕ → Read

-- Without memory for the bytes the buffer is NULL, and its size is not set. The loop has fuel for each
-- byte of the buffer: that is enough where each message ends within it, as it does where a 0 stands
-- behind the bytes.
unfoldable pub on_read : Bool → (ℕ → Given) → Read → RtspThread → Looped
unfolding append_read message_loop rtsp_reinit
on_read mem given failed t = waits t []
on_read mem given Read.closed t = elim (rtsp_reinit t) [
  | none ↦ Looped.crashed
  | some t' ↦ waits t' []
]
on_read mem given (got bytes) t = elim (append_read mem bytes t.in_buffer) [
  | none ↦ if ltb 0 t.in_buffer.size then Looped.crashed else waits t []
  | some b ↦ message_loop (suc b.size) given (put_buffer t b)
]
