-- ===== src/Parsers/H264/Aggregate.antt =====
-- H.264 video: the units of an aggregate (STAP-A).
use libnemesi.Common.{
  ℕ, zero, suc, ◌+◌, ◌-◌, ◌≤◌, ◌<◌, ◌≡◌, ◌≢◌, refl, ap, ◌∙◌, Bool, true, false, none, some, List,
  [], ◌∷◌, ◌++◌, arith, length, length-append, ltb, leb,
}
use mathlib.Core.List.{append_assoc, append-nil}
use libnemesi.Packet.{Slot, bytes_at}
use libnemesi.Rtp.Header.{payload_start, payload_size}
use libnemesi.Parsers.{fill_ok, parsed, Buffer, Step, next, ◌>>=◌, nms_append_incr}
use libnemesi.Parsers.Grow.{sized, Ample, nms_alloc_data-sized, nms_append_incr-sized}
use libnemesi.Parsers.H264.{
  H264, start_seq, nms_consume_be2, stap_loop, stap_length, stap_copy, put_stap, nal_type,
  config_of, parse_unit, is_due, h264_parse,
}

-- The bytes at `i` of the packet are the units `us`, none of them empty, each behind its size in two
-- bytes; they take `left` bytes, with at most two bytes of padding.
abbrev pub Aggregate : Slot → ℕ → ℕ → List (List ℕ) → Type 0
Aggregate p i left [] = left ≤ 2
Aggregate p i left (u ∷ us) =
    (nms_consume_be2 p i ≡ length u)
    × (u ≢ [])
    × (bytes_at p (i + 2) (length u) ≡ u)
    × (length u + 2 ≤ left)
    × Aggregate p (i + 2 + length u) (left - 2 - length u) us

-- The units, each behind a start sequence.
abbrev pub stream : List (List ℕ) → List ℕ
stream [] = []
stream (u ∷ us) = start_seq ++ u ++ stream us

length_pos : (xs : List ℕ) → xs ≢ [] → 0 < length xs
length_pos [] h = absurd (h refl)
length_pos (x ∷ xs) h = omega arith

module _ {A : Type 0} (nal : ℕ → ℕ → A → A) (p : Slot) where
  -- What the loop does to `a` for the units of an aggregate.
  abbrev pub visit : ℕ → List (List ℕ) → A → A
  visit i [] a = a
  visit i (u ∷ us) a = visit (i + 2 + length u) us (nal (i + 2) (length u) a)

  stap_loop-visit :
      (fuel i left : ℕ) (u : List ℕ) (us : List (List ℕ)) (a : A)
      → left < fuel
      → Aggregate p i left (u ∷ us)
      → stap_loop nal p fuel i left a ≡ visit i (u ∷ us) a
  unfolding stap_loop
  stap_loop-visit zero i left u us a h v = absurd (omega arith)
  stap_loop-visit (suc fuel) i left u [] a h (e, n, c, m, r) = rw e (ground (arith, r))
  stap_loop-visit (suc fuel) i left u (w ∷ ws) a h (e, n, c, m, r) =
      let fits : leb (length u + 2) left ≡ true = ground arith in
      let more : ltb 2 (left - 2 - length u) ≡ true = ground (arith, length_pos w r.1, r.3) in
      rw (e, fits, more)
        (stap_loop-visit fuel (i + 2 + length u) (left - 2 - length u) w ws
          (nal (i + 2) (length u) a) (omega arith) r)

visit-length :
    (p : Slot) (i : ℕ) (us : List (List ℕ)) (total : ℕ)
    → visit (λ j size t. t + 4 + size) p i us total ≡ total + length (stream us)
visit-length p i [] total = omega arith
visit-length p i (u ∷ us) total = omega (
  arith,
  visit-length p (i + 2 + length u) us (total + 4 + length u),
  length-append u (stream us),
)

abbrev copy : Slot → ℕ → ℕ → Step → Step
copy p j size m =
    m >>= λ b'. nms_append_incr start_seq b' >>= λ b''. nms_append_incr (bytes_at p j size) b''

copy-sized :
    (p : Slot) (j : ℕ) (u xs : List ℕ) (size : ℕ)
    → bytes_at p j (length u) ≡ u
    → length xs + 4 + length u ≤ size
    → copy p j (length u) (next (sized xs size)) ≡ next (sized (xs ++ (start_seq ++ u)) size)
copy-sized p j u xs size c h =
    rw (c, nms_append_incr-sized xs start_seq size (omega arith))
      (nms_append_incr-sized (xs ++ start_seq) u size (omega (arith, length-append xs start_seq))
        ∙ ap (λ ys. next (sized ys size)) (append_assoc xs start_seq u))

visit-copy :
    (p : Slot) (i left : ℕ) (us : List (List ℕ)) (xs : List ℕ) (size : ℕ)
    → Aggregate p i left us
    → length xs + length (stream us) ≤ size
    → visit (copy p) p i us (next (sized xs size)) ≡ next (sized (xs ++ stream us) size)
visit-copy p i left [] xs size v h = rw append-nil refl
visit-copy p i left (u ∷ us) xs size (e, n, c, m, r) h =
    rw (copy-sized p (i + 2) u xs size c (omega (arith, length-append u (stream us)))) (
      visit-copy p (i + 2 + length u) (left - 2 - length u) us (xs ++ (start_seq ++ u)) size r (
        omega (
          arith,
          length-append u (stream us),
          length-append xs (start_seq ++ u),
          length-append start_seq u,
        ))
      ∙ ap (λ ys. next (sized ys size)) (append_assoc xs (start_seq ++ u) (stream us)))

stap_length-stream :
    (p : Slot) (i left : ℕ) (u : List ℕ) (us : List (List ℕ))
    → Aggregate p i left (u ∷ us)
    → stap_length p i left ≡ length (stream (u ∷ us))
unfolding stap_length
stap_length-stream p i left u us a =
    stap_loop-visit (λ j size t. t + 4 + size) p (suc left) i left u us 0 (omega arith) a
    ∙ visit-length p i (u ∷ us) 0
    ∙ omega arith

stap_copy-stream :
    (p : Slot) (i left : ℕ) (u : List ℕ) (us : List (List ℕ)) (xs : List ℕ) (size : ℕ)
    → Aggregate p i left (u ∷ us)
    → length xs + length (stream (u ∷ us)) ≤ size
    → stap_copy p i left (sized xs size) ≡ next (sized (xs ++ stream (u ∷ us)) size)
unfolding stap_copy
stap_copy-stream p i left u us xs size a h =
    stap_loop-visit (copy p) p (suc left) i left u us (next (sized xs size)) (omega arith) a
    ∙ visit-copy p i left (u ∷ us) xs size a h

module _ (mem : ℕ → Bool) (ample : Ample mem) where
  put_stap-sized :
      (p : Slot) (n : ℕ) (b : Buffer) (u : List ℕ) (us : List (List ℕ))
      → b.lost ≡ false
      → Aggregate p (payload_start p + 1) (payload_size p n - 1) (u ∷ us)
      → (size : ℕ) × (put_stap mem p n b ≡ next (sized (b.held ++ stream (u ∷ us)) size))
  unfolding put_stap
  put_stap-sized p n b u us v a =
      let i = payload_start p + 1 in
      let left = payload_size p n - 1 in
      let total = length (stream (u ∷ us)) in
      let (size, q, fits) = nms_alloc_data-sized mem (total + length b.held) b ample v in
      (
        size,
        rw (stap_length-stream p i left u us a, q)
            (stap_copy-stream p i left u us b.held size a (omega arith)),
      )

  -- Memory is always got, no parameter sets are due, and the packet is an aggregate: behind its first
  -- byte are units, one at least and none of them empty, each behind its size, and at most two bytes
  -- more. The call returns a frame with what the buffer held and the units in order, each behind a
  -- start sequence; the packet is removed, and nothing is held.
  pub h264_parse-Aggregate :
      (s : H264) (p : Slot) (n : ℕ) (u : List ℕ) (us : List (List ℕ))
      → is_due s ≡ false
      → s.buffer.lost ≡ false
      → nal_type p ≡ 24
      → Aggregate p (payload_start p + 1) (payload_size p n - 1) (u ∷ us)
      → (size : ℕ) × (h264_parse mem (some (p, n)) s
          ≡ parsed
              (record {
                code = fill_ok;
                frame = some (s.buffer.held ++ stream (u ∷ us));
                config = config_of s;
                timestamp = none;
                removed = true;
              })
              (record s { buffer = sized [] size }))
  unfolding h264_parse parse_unit
  h264_parse-Aggregate s p n u us d v k a =
      let (size, q) = put_stap-sized p n s.buffer u us v a in (size, rw (d, k, q) refl)
