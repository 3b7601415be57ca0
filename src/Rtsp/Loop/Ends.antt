-- ===== src/Rtsp/Loop/Ends.antt =====
-- The loop over the messages in the buffer, the inner loop of `rtsp` in src/rtsp/rtsp_state_machine.c,
-- comes to its end.
use libnemesi.Common.{
  ℕ, zero, suc, ◌+◌, ◌<◌, ◌^◌, ◌≡◌, ◌⊎◌, refl, ap, Bool, true, false, not, List, [], ltb,
  if◌then◌else◌, length, arith, inl, inr, take, ◌++◌,
}
use libnemesi.Rtsp.Buffer.{RtspBuffer, full_msg_rcvd, append_read}
use libnemesi.Rtsp.Buffer.Bounds.{
  IsBounded, Received, full_msg_rcvd-Received, append_read-IsBounded,
}
use libnemesi.Rtsp.Thread.{RtspThread}
use libnemesi.Rtsp.Send.{Request, Ran, ret, Given}
use libnemesi.Rtsp.Handlers.Effect.{Post}
use libnemesi.Rtsp.Machine.{is_interleaved, handle_rtsp_pkt}
use libnemesi.Rtsp.Machine.Message.{Step, handle_rtsp_pkt-Step}
use libnemesi.Rtsp.Loop.{
  or_reset, Looped, waits, crashed, no_fuel, after, goes_on, put_buffer, message_loop, got, on_read,
}
use libnemesi.Rtsp.Reach.{Reachable, reads, handles, Reachable-Sound}

-- No message is left: the buffer is empty, or it is one in which full_msg_rcvd finds no whole message.
abbrev pub IsDrained : RtspThread → Type 0
IsDrained t =
    (t.in_buffer.size ≡ 0)
    ⊎ ((b : RtspBuffer) × (full_msg_rcvd (is_interleaved t) b ≡ (false, t.in_buffer)))

-- The loop ended with no message left, or something read through NULL.
abbrev pub Ends : Looped → Type 0
Ends (waits t rs) = Reachable t × IsDrained t
Ends crashed = Unit
Ends no_fuel = ⊥

after-Ends : (rs : List Request) (l : Looped) → Ends l → Ends (after rs l)
after-Ends rs (waits t rs') h = h
after-Ends rs crashed h = tt
after-Ends rs no_fuel h = h

-- The memory behind a new buffer holds a 0 and is got.
pub record IsKind (g : Given) : Type 0 where
  pub mem_rest : g.mem_rest ≡ true
  pub ended : g.beyond ≡ []

module _ (g : Given) (k : IsKind g) (t : RtspThread) (rest : RtspThread → Looped) (p : Reachable t)
    (v : IsBounded t.in_buffer) (f : t.in_buffer.size < 2 ^ 64)
    (ends : (t' : RtspThread)
      → Reachable t'
      → IsBounded t'.in_buffer
      → t'.in_buffer.size < t.in_buffer.size
      → Ends (rest t')) where
  handled-Ends :
      (b : RtspBuffer)
      → full_msg_rcvd (is_interleaved t) t.in_buffer ≡ (true, b)
      → Ends (goes_on (or_reset (handle_rtsp_pkt g (put_buffer t b))) rest)
  handled-Ends b e = go (or_reset (handle_rtsp_pkt g (put_buffer t b))) refl step
    where
      received : Received t.in_buffer b
      received = full_msg_rcvd-Received (is_interleaved t) t.in_buffer b v e

      step : Post (Step g (put_buffer t b)) (or_reset (handle_rtsp_pkt g (put_buffer t b)))
      step =
          let s = Reachable-Sound p in
          handle_rtsp_pkt-Step g (put_buffer t b) k.mem_rest s.not_recording s.awaits

      go :
          (r : Ran)
          → or_reset (handle_rtsp_pkt g (put_buffer t b)) ≡ r
          → Post (Step g (put_buffer t b)) r
          → Ends (goes_on r rest)
      go Ran.crashed w h = tt
      go (ret ok t' rs) w h = after-Ends rs (rest t') (
          ends t' (handles g k.mem_rest (reads b p) w) (h.bounded k.ended)
            (omega (arith, h.size, received.size, received.some_bytes, received.first, f)))

  round-Ends :
      let (full, b) = full_msg_rcvd (is_interleaved t) t.in_buffer in
      Ends (
        if not (ltb 0 t.in_buffer.size)
        then waits t []
        else if not full
        then waits (put_buffer t b) []
        else goes_on (or_reset (handle_rtsp_pkt g (put_buffer t b))) rest)
  round-Ends =
      go (ltb 0 t.in_buffer.size) (full_msg_rcvd (is_interleaved t) t.in_buffer).0 refl refl
    where
      b : RtspBuffer
      b = (full_msg_rcvd (is_interleaved t) t.in_buffer).1

      go :
          (c d : Bool)
          → ltb 0 t.in_buffer.size ≡ c
          → (full_msg_rcvd (is_interleaved t) t.in_buffer).0 ≡ d
          → Ends (
              if not c
              then waits t []
              else if not d
              then waits (put_buffer t b) []
              else goes_on (or_reset (handle_rtsp_pkt g (put_buffer t b))) rest)
      go false d e w = (p, inl (ground arith))
      go true false e w = (reads b p, inr (t.in_buffer, ap (λ d. (d, b)) w))
      go true true e w = handled-Ends b (ap (λ d. (d, b)) w)

module _ (given : ℕ → Given) (k : (i : ℕ) → IsKind (given i)) where
  message_loop-Ends :
      (fuel : ℕ) (t : RtspThread)
      → Reachable t
      → IsBounded t.in_buffer
      → t.in_buffer.size < 2 ^ 64
      → t.in_buffer.size < fuel
      → Ends (message_loop fuel given t)
  unfolding message_loop
  message_loop-Ends zero t p v f h = absurd (omega arith)
  message_loop-Ends (suc fuel) t p v f h =
      round-Ends (given fuel) (k fuel) t (λ t'. message_loop fuel given t') p v f
        (λ t' p' v' l. message_loop-Ends fuel t' p' v' (omega (arith, l)) (omega (arith, l)))

  -- A thread reads bytes, for which there is memory and which its buffer can count; there is memory
  -- for the bytes behind each message too, and a 0 happens to lie behind each piece of it. Then the
  -- loop over the messages comes to its end, unless something reads through NULL: the thread waits
  -- again, as one of the threads that there can be, and no whole message is left in its buffer.
  pub on_read-Ends :
      (bytes : List ℕ) (t : RtspThread)
      → Reachable t
      → t.in_buffer.size + length bytes < 2 ^ 64
      → Ends (on_read true given (got bytes) t)
  unfolding on_read append_read
  on_read-Ends bytes t p f =
      let b = record (t.in_buffer) {
        size = t.in_buffer.size + length bytes;
        bytes = take t.in_buffer.size t.in_buffer.bytes ++ bytes;
      } in
      let (v, s) = append_read-IsBounded bytes t.in_buffer b refl in
      message_loop-Ends (suc b.size) (put_buffer t b) (reads b p) v f (omega arith)
