-- ===== src/Playout/Unlink.antt =====
-- podel.c: taking an element out of the playout list.
use libnemesi.Common.{
  ℕ, ◌<◌, ◌≡◌, refl, sym, ◌∙◌, none, some, List, [], ◌∷◌, ◌++◌, arith, length, length-set,
  length-append, get_or-set_ne, All, All-left, All-right, All-append, All-last, Fresh, Distinct,
  Distinct-left, Distinct-right, Distinct-apart, Distinct-remove, Fresh-flip, last, subst,
}
use libnemesi.Common.Int.{ℤ, pos, ◌-ℤ◌}
use libnemesi.Bufferpool.{Link}
use libnemesi.Playout.{zero_item, PlayoutBuff, item, relink_prev, relink_next, podel}
use libnemesi.Playout.Segment.{
  Seg, Seg-set, Seg-append, Seg-split, Seg-last, Seg-set_next, Seg-set_prev,
}

-- The playout buffer holds the slots `xs`, newest first.
pub record IsPlayout (po : PlayoutBuff) (xs : List ℕ) : Type 0 where
  pub chain : Seg po.pobuff none po.pohead xs po.potail none
  pub distinct : Distinct xs
  pub in_range : All (λ x. x < length po.pobuff) xs
  pub count : po.pocount ≡ pos (length xs)

-- A list in two stretches, `xs` that ends in the link `m` and `ys` that begins with the link `q`.
record Halves (po : PlayoutBuff) (xs : List ℕ) (m n : Link) (m' q : Link) (ys : List ℕ)
    : Type 0 where
  front : Seg po.pobuff none po.pohead xs m n
  back : Seg po.pobuff m' q ys po.potail none

relink_prev-Halves :
    (po : PlayoutBuff) (xs : List ℕ) (m n m' q : Link) (ys : List ℕ)
    → Distinct (xs ++ ys)
    → All (λ x. x < length po.pobuff) ys
    → Halves po xs m n m' q ys
    → Halves (relink_prev po q m) xs m n m q ys
unfolding relink_prev
relink_prev-Halves po xs m n m' q [] d b h =
    rw (h.back.1) (record { front = h.front; back = (refl, refl) })
relink_prev-Halves po xs m n m' q (z ∷ zs) d b h = rw (h.back.0) (record {
  front =
      Seg-set po.pobuff z (record (item po.pobuff z) { prev = m }) none po.pohead xs m n
        (Fresh-flip xs (z ∷ zs) (Distinct-apart xs (z ∷ zs) d)).0 h.front;
  back =
      Seg-set_prev po.pobuff m' (some z) z zs po.potail none m (Distinct-right xs (z ∷ zs) d).0 b.0
        (refl, h.back.1, h.back.2);
})

relink_next-Halves :
    (po : PlayoutBuff) (xs : List ℕ) (m n q : Link) (ys : List ℕ)
    → Distinct (xs ++ ys)
    → All (λ x. x < length po.pobuff) xs
    → Halves po xs m n m q ys
    → Halves (relink_next po m q) xs m q m q ys
unfolding relink_next
relink_next-Halves po [] m n q ys d b h =
    rw (h.front.0) (record { front = (refl, refl); back = rw (h.front.0) at (h.back) })
relink_next-Halves po (x ∷ xs) m n q ys d b h =
    let w = last x xs in
    let e = Seg-last po.pobuff none po.pohead x xs m n h.front in
    let b' = rw e at h.back in
    let f' = rw e at h.front in
    let apart = Distinct-apart (x ∷ xs) ys d in
    subst (λ k. Halves (relink_next po k q) (x ∷ xs) k q k q ys) (sym e)
      (record {
        front =
            Seg-set_next po.pobuff none po.pohead x xs (some w) n q (Distinct-left (x ∷ xs) ys d)
              (All-last (λ z. z < length po.pobuff) x xs b) f';
        back =
            Seg-set po.pobuff w (record (item po.pobuff w) { next = q }) (some w) q ys po.potail
              none (All-last (λ z. Fresh z ys) x xs apart) b';
      })

-- Redirecting links changes neither the number of elements nor of array entries.
length-relink_prev :
    (po : PlayoutBuff) (q v : Link) → length (relink_prev po q v).pobuff ≡ length po.pobuff
unfolding relink_prev
length-relink_prev po none v = refl
length-relink_prev po (some z) v = length-set po.pobuff z (record (item po.pobuff z) { prev = v })

length-relink_next :
    (po : PlayoutBuff) (q v : Link) → length (relink_next po q v).pobuff ≡ length po.pobuff
unfolding relink_next
length-relink_next po none v = refl
length-relink_next po (some z) v = length-set po.pobuff z (record (item po.pobuff z) { next = v })

pocount-relink_prev : (po : PlayoutBuff) (q v : Link) → (relink_prev po q v).pocount ≡ po.pocount
unfolding relink_prev
pocount-relink_prev po none v = refl
pocount-relink_prev po (some z) v = refl

pocount-relink_next : (po : PlayoutBuff) (q v : Link) → (relink_next po q v).pocount ≡ po.pocount
unfolding relink_next
pocount-relink_next po none v = refl
pocount-relink_next po (some z) v = refl

-- The element that leaves keeps its own links while its neighbours are redirected.
item-relink_prev :
    (po : PlayoutBuff) (y : ℕ) (m' q v : Link) (ys : List ℕ) (l : Link)
    → Fresh y ys
    → Seg po.pobuff m' q ys l none
    → item (relink_prev po q v).pobuff y ≡ item po.pobuff y
unfolding relink_prev
item-relink_prev po y m' q v [] l f s = rw (s.1)
item-relink_prev po y m' q v (z ∷ zs) l f s =
    rw (s.0) (get_or-set_ne po.pobuff z y (record (item po.pobuff z) { prev = v }) zero_item f.0)

in_range-append :
    (n : ℕ) (xs ys : List ℕ) (y : ℕ) → All (λ x. x < n) (xs ++ y ∷ ys) → All (λ x. x < n) (xs ++ ys)
in_range-append n xs ys y h =
    All-append (λ x. x < n) xs ys (All-left (λ x. x < n) xs (y ∷ ys) h)
      (All-right (λ x. x < n) xs (y ∷ ys) h).1

count-remove :
    (xs ys : List ℕ) (y : ℕ) (c : ℤ)
    → c ≡ pos (length (xs ++ y ∷ ys))
    → c -ℤ pos 1 ≡ pos (length (xs ++ ys))
unfolding ◌-ℤ◌
count-remove xs ys y c e = rw e (ground (arith, length-append xs ys, length-append xs (y ∷ ys)))

-- The links of a valid list around an element `y`, after podel's two redirections.
podel-Halves :
    (po : PlayoutBuff) (xs : List ℕ) (y : ℕ) (ys : List ℕ)
    → IsPlayout po (xs ++ y ∷ ys)
    → let m = (item po.pobuff y).prev in
      let q = (item po.pobuff y).next in
      (item (relink_prev po q m).pobuff y ≡ item po.pobuff y)
      × Halves (relink_next (relink_prev po q m) m q) xs m q m q ys
podel-Halves po xs y ys v =
    let (m, n, front, rest) =
      Seg-split po.pobuff none po.pohead xs (y ∷ ys) po.potail none v.chain in
    let q = (item po.pobuff y).next in
    let p = (item po.pobuff y).prev in
    let d = Distinct-remove xs ys y v.distinct in
    let b = All-right (λ x. x < length po.pobuff) xs (y ∷ ys) v.in_range in
    let h0 : Halves po xs p n (some y) q ys = record { front = rw (rest.1) front; back = rest.2 } in
    let h1 = relink_prev-Halves po xs p n (some y) q ys d b.1 h0 in
    (
      item-relink_prev po y (some y) q p ys po.potail (Distinct-right xs (y ∷ ys) v.distinct).0
          rest.2,
      relink_next-Halves (relink_prev po q p) xs p n q ys d
          (rw (length-relink_prev po q p)
            (All-left (λ x. x < length po.pobuff) xs (y ∷ ys) v.in_range))
          h1,
    )

-- podel takes exactly the given element out of a valid playout buffer, whether it stands at an
-- end or in the middle: the others stay linked in their order, and the count falls by one.
pub podel-IsPlayout :
    (po : PlayoutBuff) (xs : List ℕ) (y : ℕ) (ys : List ℕ)
    → IsPlayout po (xs ++ y ∷ ys)
    → IsPlayout (podel po y) (xs ++ ys)
unfolding podel
podel-IsPlayout po xs y ys v =
    let m = (item po.pobuff y).prev in
    let q = (item po.pobuff y).next in
    let (same, h) = podel-Halves po xs y ys v in
    let po2 = relink_next (relink_prev po q m) m q in
    rw same (record {
      chain = Seg-append po2.pobuff none po2.pohead xs m q ys po2.potail none h.front h.back;
      distinct = Distinct-remove xs ys y v.distinct;
      in_range =
          rw (length-relink_next (relink_prev po q m) m q, length-relink_prev po q m)
            (in_range-append (length po.pobuff) xs ys y v.in_range);
      count =
          rw (pocount-relink_next (relink_prev po q m) m q, pocount-relink_prev po q m)
            (count-remove xs ys y po.pocount v.count);
    })

pub length-podel : (po : PlayoutBuff) (y : ℕ) → length (podel po y).pobuff ≡ length po.pobuff
unfolding podel
length-podel po y =
    let q = (item po.pobuff y).next in
    let m = (item po.pobuff y).prev in
    let po1 = relink_prev po q m in
    length-relink_next po1 (item po1.pobuff y).prev (item po1.pobuff y).next
    ∙ length-relink_prev po q m
