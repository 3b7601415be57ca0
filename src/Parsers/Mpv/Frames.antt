-- ===== src/Parsers/Mpv/Frames.antt =====
-- MPEG video: the frame that the packets of one time stamp make.
use libnemesi.Common.{
  ℕ, ◌+◌, ◌-◌, ◌^◌, ◌%◌, Bool, ◌≤◌, ◌<◌, ◌≡◌, ◌≢◌, refl, false, none, List, [], ◌∷◌, ◌++◌, arith,
  length,
}
use libnemesi.Packet.{Slot, length-bytes_at}
use libnemesi.Rtp.Header.{payload_start, payload_size}
use libnemesi.Parsers.{Output, Buffer, next, Assembly, is_stray}
use libnemesi.Parsers.Grow.{IsBuffer, sized, Ample, grown, begins}
use libnemesi.Parsers.Fill.{Packet, Queue, fill_loop}
use libnemesi.Parsers.Frame.{Assembles, Run, pieces, Yields, fill_loop-Yields}
use libnemesi.Parsers.Simple.{Called, IsIdle, IsIdle-IsAssembly, simple}
use libnemesi.Parsers.Mpv.{bit_b, header_len, content, put, mpv_parse}

-- The packet has room for its header, the first one of a frame has the bit B, and the frame stays
-- below the size of memory.
abbrev pub Fits : List ℕ → Packet → Type 0
Fits xs (p, n) =
    (xs ≡ [] → bit_b p ≢ 0)
    × (header_len p ≤ payload_size p n)
    × (length xs + payload_size p n < 2 ^ 64)

length-content : (p : Slot) (n : ℕ) → length (content p n) ≡ payload_size p n - header_len p
unfolding content
length-content p n =
    length-bytes_at p (payload_start p + header_len p) (payload_size p n - header_len p)

module _ (mem : ℕ → Bool) (ample : Ample mem) where
  put-sized :
      (p : Slot) (n : ℕ) (b : Buffer)
      → IsBuffer b
      → header_len p ≤ payload_size p n
      → length b.held + payload_size p n < 2 ^ 64
      → (size : ℕ) × (length (b.held ++ content p n) ≤ size)
        × (put mem p n b ≡ next (sized (b.held ++ content p n) size))
  unfolding put
  put-sized p n b v h m =
      let need = ((payload_size p n + 2 ^ 64 - header_len p) % 2 ^ 64 + length b.held) % 2 ^ 64 in
      let exact : need ≡ payload_size p n - header_len p + length b.held = omega arith in
      let (size, b', e, q) =
        grown mem need b (content p n) ample v.present (omega (arith, length-content p n)) in
      (size, b', rw e (ground (arith, q)))

  pub call :
      (s : Assembly) (x : Packet)
      → IsBuffer s.buffer
      → is_stray x.0 s ≡ false
      → Fits s.buffer.held x
      → Called (mpv_parse mem) none (content x.0 x.1) x s s.buffer.held
  unfolding mpv_parse
  call s (p, n) v e (first, h, m) =
      let (size, b, q) = put-sized p n s.buffer v h m in
      (size, b, rw (e, begins s.buffer.held (bit_b p) first, q) refl)

  abbrev pub frames : (t : ℕ) → Assembles (mpv_parse mem)
  frames t = simple t (mpv_parse mem) none (λ x. content x.0 x.1) Fits call

  -- The packets `ys` and then `z` are the next ones, all of the time `t`, only `z` has the mark, and
  -- the first of them has the bit B; they have room for their headers and do not fill the memory,
  -- which is always got. No frame is begun. Then the loop of rtp_fill_buffer, with a round for each
  -- packet, ends with a frame: it is the contents of the packets behind their headers, in order. The
  -- packets are removed, those behind them wait, and no frame is begun.
  pub mpv_parse-frame :
      {Q : Type 0} (i : Queue Q) (t fuel : ℕ) (old : Output) (q : Q) (s : Assembly)
      (ys : List Packet) (z : Packet) (rest : List Packet)
      → length ys < fuel
      → IsIdle s
      → Run i (mpv_parse mem) (frames t) [] ys z
      → i.Holds q (ys ++ z ∷ rest)
      → Yields i IsIdle
          (pieces i (mpv_parse mem) (frames t) ys z)
          rest
          (fill_loop i (mpv_parse mem) fuel old q s)
  mpv_parse-frame i t fuel old q s ys z rest l v r w =
      fill_loop-Yields i (mpv_parse mem) (frames t) fuel old q s [] ys z rest l
        (IsIdle-IsAssembly t s v) r w
