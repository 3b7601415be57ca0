-- ===== src/Parsers/H263/Frames.antt =====
-- H.263 video: the frame that the packets of one time stamp make.
use libnemesi.Common.{
  subst, if◌then◌else◌, Bool-cases, ◌==◌, inl, inr, ◌∙◌, ap, zero, suc, ℕ, ◌+◌, ◌-◌, ◌≤◌, ◌<◌, ◌≡◌,
  ◌≢◌, refl, Bool, false, some, List, [], ◌∷◌, ◌++◌, arith, length, length-set, set,
}
use libnemesi.Packet.{Slot, bytes_at, length-bytes_at}
use libnemesi.Rtp.Header.{payload_start, payload_size}
use libnemesi.Parsers.{Output, Buffer, next, Assembly, is_stray}
use libnemesi.Parsers.Grow.{IsBuffer, sized, Ample, grown, begins}
use libnemesi.Parsers.Fill.{Packet, Queue, fill_loop}
use libnemesi.Parsers.Frame.{Assembles, Run, pieces, Yields, fill_loop-Yields}
use libnemesi.Parsers.Simple.{Called, IsIdle, IsIdle-IsAssembly, simple}
use libnemesi.Parsers.H263.{bit_v, header_bytes, bit_p, start, zeroed, fragment, put, h263_parse}

-- The packet has room for what is skipped, and with the bit P for the two zeros too; the first one of
-- a frame has the bit P.
abbrev pub Fits : List ℕ → Packet → Type 0
Fits xs (p, n) =
    (xs ≡ [] → bit_p p ≢ 0)
    × (start p ≤ payload_size p n)
    × (bit_p p ≢ 0 → start p + 2 ≤ payload_size p n)

-- What a packet gives to its frame: with the bit P two zeros in place of its first two bytes.
abbrev pub piece : Packet → List ℕ
piece (p, n) =
    let skipped = bit_v p + header_bytes p + 2 in
    let behind = bytes_at p (payload_start p + skipped) (payload_size p n - skipped) in
    if bit_p p == 0 then behind else 0 ∷ 0 ∷ behind

bytes_move : (p : Slot) (i j m n : ℕ) → i ≡ j → m ≡ n → bytes_at p i m ≡ bytes_at p j n
bytes_move p i j m n e f = rw (e, f) refl

zeroed-two :
    (p : Slot) (i m : ℕ) → 2 ≤ m → zeroed (bytes_at p i m) ≡ 0 ∷ 0 ∷ bytes_at p (i + 2) (m - 2)
unfolding zeroed bytes_at
zeroed-two p i zero h = absurd (omega arith)
zeroed-two p i (suc zero) h = absurd (omega arith)
zeroed-two p i (suc (suc m)) h =
    ap (λ xs. 0 ∷ 0 ∷ xs)
      (bytes_move p (i + 1 + 1) (i + 2) m (suc (suc m) - 2) (omega arith) (omega arith))

fragment-piece :
    (p : Slot) (n : ℕ)
    → (bit_p p ≢ 0 → start p + 2 ≤ payload_size p n)
    → fragment p n ≡ piece (p, n)
unfolding fragment start
fragment-piece p n h =
    let skipped = bit_v p + header_bytes p + 2 in
    elim (Bool-cases (bit_p p == 0)) [
      | inl e ↦ rw e (
          bytes_move p (payload_start p + (2 + bit_v p + header_bytes p))
            (payload_start p + skipped) (payload_size p n - (2 + bit_v p + header_bytes p))
            (payload_size p n - skipped) (omega arith) (omega arith))
      | inr e ↦ rw e (
          zeroed-two p (payload_start p + (0 + bit_v p + header_bytes p))
            (payload_size p n - (0 + bit_v p + header_bytes p)) (ground (arith, h))
          ∙ ap (λ xs. 0 ∷ 0 ∷ xs)
              (bytes_move p (payload_start p + (0 + bit_v p + header_bytes p) + 2)
                (payload_start p + skipped) (payload_size p n - (0 + bit_v p + header_bytes p) - 2)
                (payload_size p n - skipped) (omega arith) (omega arith)))
    ]

length-fragment : (p : Slot) (n : ℕ) → length (fragment p n) ≡ payload_size p n - start p
unfolding fragment zeroed
length-fragment p n =
    let xs = bytes_at p (payload_start p + start p) (payload_size p n - start p) in
    let e = length-bytes_at p (payload_start p + start p) (payload_size p n - start p) in
    ground (arith, e, length-set xs 0 0, length-set (set xs 0 0) 1 0)

module _ (mem : ℕ → Bool) (ample : Ample mem) where
  put-sized :
      (p : Slot) (n : ℕ) (b : Buffer)
      → IsBuffer b
      → start p ≤ payload_size p n
      → (bit_p p ≢ 0 → start p + 2 ≤ payload_size p n)
      → (size : ℕ) × (length (b.held ++ fragment p n) ≤ size)
        × (put mem p n b ≡ next (sized (b.held ++ fragment p n) size))
  unfolding put
  put-sized p n b v h m =
      let need = payload_size p n - start p + length b.held in
      let (size, b', e, q) =
        grown mem need b (fragment p n) ample v.present (omega (arith, length-fragment p n)) in
      (size, b', rw e (ground (arith, m, q)))

  pub call :
      (s : Assembly) (x : Packet)
      → IsBuffer s.buffer
      → is_stray x.0 s ≡ false
      → Fits s.buffer.held x
      → Called (h263_parse mem) (some []) (piece x) x s s.buffer.held
  unfolding h263_parse
  call s (p, n) v e (first, h, m) =
      let (size, b, q) = put-sized p n s.buffer v h m in
      subst (λ xs. Called (h263_parse mem) (some []) xs (p, n) s s.buffer.held)
        (fragment-piece p n m) (size, b, rw (e, begins s.buffer.held (bit_p p) first, q) refl)

  abbrev pub frames : (t : ℕ) → Assembles (h263_parse mem)
  frames t = simple t (h263_parse mem) (some []) piece Fits call

  -- The packets `ys` and then `z` are the next ones, all of the time `t`, and only `z` has the mark.
  -- The first of them has the bit P; each has room for what is skipped, and with the bit P for two
  -- bytes more. Memory is always got, and no frame is begun. Then the loop of rtp_fill_buffer, with a
  -- round for each packet, ends with a frame: it is what the packets hold behind what is skipped, in
  -- order, and where a packet has the bit P two zeros stand for the two first bytes. The packets are removed,
  -- those behind them wait, and no frame is begun.
  pub h263_parse-frame :
      {Q : Type 0} (i : Queue Q) (t fuel : ℕ) (old : Output) (q : Q) (s : Assembly)
      (ys : List Packet) (z : Packet) (rest : List Packet)
      → length ys < fuel
      → IsIdle s
      → Run i (h263_parse mem) (frames t) [] ys z
      → i.Holds q (ys ++ z ∷ rest)
      → Yields i IsIdle
          (pieces i (h263_parse mem) (frames t) ys z)
          rest
          (fill_loop i (h263_parse mem) fuel old q s)
  h263_parse-frame i t fuel old q s ys z rest l v r w =
      fill_loop-Yields i (h263_parse mem) (frames t) fuel old q s [] ys z rest l
        (IsIdle-IsAssembly t s v) r w
