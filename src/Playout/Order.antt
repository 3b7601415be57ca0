-- ===== src/Playout/Order.antt =====
-- The order that poadd.c keeps while the sequence numbers do not wrap.
use libnemesi.Common.{
  ℕ, ◌+◌, ◌<◌, ◌≤◌, ◌^◌, ◌≡◌, refl, sym, ap, ◌∙◌, subst, ◌⊎◌, inl, inr, true, false, none, some,
  List, [], ◌∷◌, ◌++◌, arith, length, Bool-cases, All, All-left, All-right, All-append, All-map,
  Fresh, ltb, ◌==◌,
}
use libnemesi.Packet.{Slot, seq, seq-lt}
use libnemesi.Playout.{
  PlayoutBuff, po_get_pkg, next_cycles, key, is_duplicate, poadd, AddResult, added, duplicated,
}
use libnemesi.Playout.Segment.{first}
use libnemesi.Playout.Unlink.{IsPlayout}
use libnemesi.Playout.Locate.{
  Walk, pass, stop, locate, locate-append, locate-nil, locate-pass, locate-stop,
}
use libnemesi.Playout.Add.{Inserted, Outcome, poadd-Outcome}

-- The sequence number of the packet in slot `i`.
abbrev pub seq_of : List Slot → ℕ → ℕ
seq_of slots i = seq (po_get_pkg [] slots (some i))

-- The packets in `xs` have falling sequence numbers.
abbrev pub Falling : List Slot → List ℕ → Type 0
Falling slots [] = Unit
Falling slots (x ∷ xs) = All (λ y. seq_of slots y < seq_of slots x) xs × Falling slots xs

module _ (before : Slot) (slots : List Slot) (c r : ℕ) (small : r + 65536 ≤ 2 ^ 32) where
  key-small : (i : ℕ) → key slots r i ≡ seq_of slots i + r
  unfolding key
  key-small i = omega (arith, seq-lt (po_get_pkg [] slots (some i)))

  -- No jump is seen between falling sequence numbers, but for the last element's.
  next_cycles-falling :
      (x y : ℕ) → seq_of slots y < seq_of slots x → next_cycles before slots x (some y) r ≡ r
  unfolding next_cycles po_get_pkg
  next_cycles-falling x y h = ground arith

  -- The loop stops at the first element that is not newer, with `r_cycles` as it was.
  abbrev Stopped : Walk → Type 0
  Stopped w =
      All (λ y. c < seq_of slots y) w.passed
      × ((w.left ≡ [])
          ⊎ ((z : ℕ) × (zs : List ℕ) × (w.left ≡ z ∷ zs) × (seq_of slots z ≤ c) × (w.r_cycles ≡ r)))

  Stopped-stop :
      (x : ℕ) (xs : List ℕ) → ltb (c + r) (key slots r x) ≡ false → Stopped (stop (x ∷ xs) r)
  Stopped-stop x xs e = (tt, inr (x, xs, refl, ground (arith, key-small x), refl))

  Stopped-pass :
      (x : ℕ) (w : Walk) → ltb (c + r) (key slots r x) ≡ true → Stopped w → Stopped (pass x w)
  Stopped-pass x w e s = ((ground (arith, key-small x), s.0), s.1)

  locate-Stopped : (xs : List ℕ) → Falling slots xs → Stopped (locate before slots (c + r) r xs)
  locate-Stopped [] f = subst Stopped (sym (locate-nil before slots (c + r) r)) (tt, inl refl)
  locate-Stopped (x ∷ []) f = elim (Bool-cases (ltb (c + r) (key slots r x))) [
    | inl e ↦
        subst Stopped
          (sym (
            locate-pass before slots (c + r) r x [] e
            ∙ ap (pass x) (locate-nil before slots (c + r) (next_cycles before slots x none r))))
          ((ground (arith, key-small x), tt), inl refl)
    | inr e ↦ subst Stopped (sym (locate-stop before slots (c + r) r x [] e)) (Stopped-stop x [] e)
  ]
  locate-Stopped (x ∷ y ∷ ys) f =
      let rest = locate-Stopped (y ∷ ys) f.1 in
      elim (Bool-cases (ltb (c + r) (key slots r x))) [
        | inl e ↦
            subst Stopped
              (sym (
                locate-pass before slots (c + r) r x (y ∷ ys) e
                ∙ ap (λ k. pass x (locate before slots (c + r) k (y ∷ ys)))
                    (next_cycles-falling x y f.0.0)))
              (Stopped-pass x (locate before slots (c + r) r (y ∷ ys)) e rest)
        | inr e ↦
            subst Stopped (sym (locate-stop before slots (c + r) r x (y ∷ ys) e))
              (Stopped-stop x (y ∷ ys) e)
      ]

-- The result of adding slot `index` to `xs` while nothing wraps.
module _ (slots : List Slot) (po : PlayoutBuff) (index : ℕ) where
  -- A packet with the same sequence number is there, and nothing changes.
  abbrev pub Repeated : List ℕ → AddResult → Type 0
  Repeated xs r =
      (z : ℕ) × (above : List ℕ) × (below : List ℕ) × (xs ≡ above ++ z ∷ below)
      × (seq_of slots z ≡ seq_of slots index)
      × (r ≡ added duplicated po)

  -- The packet stands behind all newer and in front of all older ones.
  abbrev pub Sorted : List ℕ → AddResult → Type 0
  Sorted xs r =
      (above : List ℕ) × (below : List ℕ) × (xs ≡ above ++ below)
      × Falling slots (above ++ index ∷ below)
      × Inserted po index po.cycles above below r

  Falling-insert :
      (above below : List ℕ)
      → All (λ y. seq_of slots index < seq_of slots y) above
      → All (λ y. seq_of slots y < seq_of slots index) below
      → Falling slots (above ++ below)
      → Falling slots (above ++ index ∷ below)
  Falling-insert [] below ha hb f = (hb, f)
  Falling-insert (x ∷ xs) below ha hb f =
      let P : ℕ → Type 0 = λ y. seq_of slots y < seq_of slots x in
      (
        All-append P xs (index ∷ below) (All-left P xs below f.0) (ha.0, All-right P xs below f.0),
        Falling-insert xs below ha.1 hb f.1,
      )

  Falling-right : (xs ys : List ℕ) → Falling slots (xs ++ ys) → Falling slots ys
  Falling-right [] ys f = f
  Falling-right (x ∷ xs) ys f = Falling-right xs ys f.1

  Outcome-Sorted :
      (before : Slot) (w : Walk) (r : AddResult)
      → po.cycles + 65536 ≤ 2 ^ 32
      → Falling slots (w.passed ++ w.left)
      → All (λ y. seq_of slots index < seq_of slots y) w.passed
      → ((w.left ≡ [])
          ⊎ ((z : ℕ) × (zs : List ℕ) × (w.left ≡ z ∷ zs)
              × (seq_of slots z ≤ seq_of slots index)
              × (w.r_cycles ≡ po.cycles)))
      → Outcome before slots po index po.cycles w r
      → Repeated (w.passed ++ w.left) r ⊎ Sorted (w.passed ++ w.left) r
  unfolding is_duplicate
  Outcome-Sorted before w r small f h (inl e) (inl (d, q)) =
      let d' : is_duplicate slots (key slots po.cycles index) (first []) w.r_cycles ≡ true =
        subst (λ l. is_duplicate slots (key slots po.cycles index) (first l) w.r_cycles ≡ true) e
          d in
      cc
  Outcome-Sorted before w r small f h (inl e) (inr (d, ins)) = inr (
    w.passed,
    w.left,
    refl,
    Falling-insert w.passed w.left h
        (subst (All (λ y. seq_of slots y < seq_of slots index)) (sym e) tt) f,
    ins,
  )
  Outcome-Sorted before w r small f h (inr (z, zs, e, le, re)) (inl (d, q)) =
      let d' : (key slots po.cycles z == key slots po.cycles index) ≡ true =
        subst (λ k. (key slots k z == key slots po.cycles index) ≡ true) re
          (subst (λ l. is_duplicate slots (key slots po.cycles index) (first l) w.r_cycles ≡ true) e
            d) in
      inl (
        z,
        w.passed,
        zs,
        ap (λ l. w.passed ++ l) e,
        ground (
          arith,
          key-small before slots 0 po.cycles small z,
          key-small before slots 0 po.cycles small index,
        ),
        q,
      )
  Outcome-Sorted before w r small f h (inr (z, zs, e, le, re)) (inr (d, ins)) =
      let d' : (key slots po.cycles z == key slots po.cycles index) ≡ false =
        subst (λ k. (key slots k z == key slots po.cycles index) ≡ false) re
          (subst (λ l. is_duplicate slots (key slots po.cycles index) (first l) w.r_cycles ≡ false)
            e d) in
      let older : seq_of slots z < seq_of slots index = ground (
        arith,
        key-small before slots 0 po.cycles small z,
        key-small before slots 0 po.cycles small index,
      ) in
      let fz : Falling slots (z ∷ zs) = subst (Falling slots) e (Falling-right w.passed w.left f) in
      let below : All (λ y. seq_of slots y < seq_of slots index) (z ∷ zs) = (
        older,
        All-map (λ y. seq_of slots y < seq_of slots z) (λ y. seq_of slots y < seq_of slots index)
            (λ y k. omega arith) zs fz.0,
      ) in
      inr (
        w.passed,
        w.left,
        refl,
        Falling-insert w.passed w.left h
            (subst (All (λ y. seq_of slots y < seq_of slots index)) (sym e) below) f,
        ins,
      )

  -- While the packets of a valid playout buffer have falling sequence numbers, a packet of the same
  -- cycle, with the 32-bit sums `seq + cycles` in range, is either a repetition of one that is
  -- there, and then nothing changes, or is linked in so that the sequence numbers still fall.
  pub poadd-Sorted :
      (before : Slot) (xs : List ℕ)
      → IsPlayout po xs
      → Falling slots xs
      → Fresh index xs
      → index < length po.pobuff
      → po.cycles + 65536 ≤ 2 ^ 32
      → let r = poadd before slots po index po.cycles in Repeated xs r ⊎ Sorted xs r
  poadd-Sorted before xs v f fresh b small =
      let cseq = key slots po.cycles index in
      let c = seq_of slots index in
      let w = locate before slots cseq po.cycles xs in
      let e = locate-append before slots cseq po.cycles xs in
      let (above, st) =
        subst (λ k. Stopped before slots c po.cycles small (locate before slots k po.cycles xs))
          (sym (key-small before slots c po.cycles small index))
          (locate-Stopped before slots c po.cycles small xs f) in
      let r = poadd before slots po index po.cycles in
      subst (λ l. Repeated l r ⊎ Sorted l r) e
        (Outcome-Sorted before w r small (subst (Falling slots) (sym e) f) above st
          (poadd-Outcome before slots po index po.cycles xs v fresh b))
