-- ===== src/Playout/Insert.antt =====
-- The three places where poadd.c links a new element in.
use libnemesi.Common.{
  ℕ, ◌<◌, ◌≡◌, ◌≢◌, refl, sym, none, some, List, [], ◌∷◌, ◌++◌, arith, set, length, length-set,
  length-append, get_or-set_self, get_or-set_ne, All, All-left, All-right, All-append, All-last,
  Fresh, Distinct, Distinct-left, Distinct-right, Distinct-apart, Fresh-flip, last, subst, ap, ◌∙◌,
}
use libnemesi.Common.Int.{ℤ, pos, ◌+ℤ◌}
use libnemesi.Bufferpool.{Link}
use libnemesi.Playout.{
  PoItem, zero_item, PlayoutBuff, item, set_prev, set_next, head_link, head_insert, tail_insert,
  inner_insert, added, misordered,
}
use libnemesi.Playout.Segment.{
  Seg, Seg-set, Seg-append, Seg-last, Seg-last_next, Seg-set_next, Seg-set_prev,
}

-- Facts about the list with `index` put between `xs` and `ys`.
module _ (index : ℕ) (xs ys : List ℕ) where
  pub in_range-insert :
      (n : ℕ) → index < n → All (λ x. x < n) (xs ++ ys) → All (λ x. x < n) (xs ++ index ∷ ys)
  in_range-insert n b h =
      All-append (λ x. x < n) xs (index ∷ ys) (All-left (λ x. x < n) xs ys h)
        (b, All-right (λ x. x < n) xs ys h)

  pub count-insert :
      (c : ℤ) → c ≡ pos (length (xs ++ ys)) → c +ℤ pos 1 ≡ pos (length (xs ++ index ∷ ys))
  unfolding ◌+ℤ◌
  count-insert c e = rw e (ground (arith, length-append xs ys, length-append xs (index ∷ ys)))

-- The links of `index` after it has been written between `p` and `n`.
Seg-one :
    (a : List PoItem) (index : ℕ) (p n : Link)
    → (item a index).prev ≡ p
    → (item a index).next ≡ n
    → Seg a p (some index) (index ∷ []) (some index) n
Seg-one a index p n hp hn = (refl, hp, (refl, hn))

module _ (po : PlayoutBuff) (index : ℕ) where
  abbrev i_next : List PoItem → Link → PoItem
  i_next a n = record (item a index) { next = n }

  abbrev i_prev : List PoItem → Link → PoItem
  i_prev a p = record (item a index) { prev = p }

  pub head_insert-nil :
      (cycles : ℕ) (h : Link)
      → index < length po.pobuff
      → Seg po.pobuff none h [] po.potail none
      → let po' = head_insert po index cycles h in
        Seg po'.pobuff none po'.pohead (index ∷ []) po'.potail none
  unfolding head_insert head_link
  head_insert-nil cycles h b s =
      let a1 = set_next po.pobuff index none in
      rw (s.1) (
        rw
          (get_or-set_self a1 index (i_prev a1 none) zero_item
            (rw (length-set po.pobuff index (i_next po.pobuff none)) b))
          (rw (get_or-set_self po.pobuff index (i_next po.pobuff none) zero_item b)
            (refl, refl, (refl, refl))))

  pub head_insert-cons :
      (cycles : ℕ) (h : Link) (z : ℕ) (zs : List ℕ)
      → index < length po.pobuff
      → z < length po.pobuff
      → Fresh index (z ∷ zs)
      → Distinct (z ∷ zs)
      → Seg po.pobuff none h (z ∷ zs) po.potail none
      → let po' = head_insert po index cycles h in
        Seg po'.pobuff none po'.pohead (index ∷ z ∷ zs) po'.potail none
  unfolding head_insert head_link
  head_insert-cons cycles h z zs b bz f d s =
      let a = po.pobuff in
      let a1 = set_next a index (some z) in
      let a2 = set_prev a1 z (some index) in
      let l1 = length-set a index (i_next a (some z)) in
      let l2 = length-set a1 z (record (item a1 z) { prev = some index }) in
      let s0 : Seg a none (some z) (z ∷ zs) po.potail none = (refl, s.1, s.2) in
      let s1 = Seg-set a index (i_next a (some z)) none (some z) (z ∷ zs) po.potail none f s0 in
      let s2 = Seg-set_prev a1 none (some z) z zs po.potail none (some index) d.0 (rw l1 bz) s1 in
      let s3 =
        Seg-set a2 index (i_prev a2 none) (some index) (some z) (z ∷ zs) po.potail none f s2 in
      let self = get_or-set_self a2 index (i_prev a2 none) zero_item (rw (l2, l1) b) in
      let kept =
        get_or-set_ne a1 z index (record (item a1 z) { prev = some index }) zero_item f.0 in
      let linked = get_or-set_self a index (i_next a (some z)) zero_item b in
      subst
        (λ k.
          let po' = head_insert po index cycles k in
          Seg po'.pobuff none po'.pohead (index ∷ z ∷ zs) po'.potail none)
        (sym s.0)
        (
          refl,
          ap (λ (t : PoItem). t.prev) self,
          (
            ap (λ (t : PoItem). t.next) self ∙ ap (λ (t : PoItem). t.next) (kept ∙ linked),
            s3.1,
            s3.2,
          ),
        )

  pub tail_insert-cons :
      (h l : Link) (x : ℕ) (xs : List ℕ)
      → index < length po.pobuff
      → last x xs < length po.pobuff
      → Fresh index (x ∷ xs)
      → Distinct (x ∷ xs)
      → Seg po.pobuff none h (x ∷ xs) l none
      → (po' : PlayoutBuff) × (tail_insert po index l ≡ added misordered po')
        × (po'.pohead ≡ po.pohead)
        × (po'.pocount ≡ po.pocount +ℤ pos 1)
        × (po'.cycles ≡ po.cycles)
        × (length po'.pobuff ≡ length po.pobuff)
        × Seg po'.pobuff none h (x ∷ xs ++ index ∷ []) po'.potail none
  unfolding tail_insert
  tail_insert-cons h l x xs b bw f d s =
      let a = po.pobuff in
      let w = last x xs in
      let n = (item a w).next in
      let a1 = set_next a index n in
      let a2 = set_next a1 w (some index) in
      let a3 = set_prev a2 index (some w) in
      let l1 = length-set a index (i_next a n) in
      let l2 = length-set a1 w (record (item a1 w) { next = some index }) in
      let l3 = length-set a2 index (i_prev a2 (some w)) in
      let e = Seg-last a none h x xs l none s in
      let s0 = rw e at s in
      let s1 = Seg-set a index (i_next a n) none h (x ∷ xs) (some w) none f s0 in
      let s2 = Seg-set_next a1 none h x xs (some w) none (some index) d (rw l1 bw) s1 in
      let s3 = Seg-set a2 index (i_prev a2 (some w)) none h (x ∷ xs) (some w) (some index) f s2 in
      let self = get_or-set_self a2 index (i_prev a2 (some w)) zero_item (rw (l2, l1) b) in
      let kept =
        get_or-set_ne a1 w index (record (item a1 w) { next = some index }) zero_item
          (All-last (λ z. z ≢ index) x xs f) in
      let linked = get_or-set_self a index (i_next a n) zero_item b in
      let behind : (item a3 index).next ≡ none =
        ap (λ (t : PoItem). t.next) self
        ∙ ap (λ (t : PoItem). t.next) (kept ∙ linked)
        ∙ Seg-last_next a none h x xs l none s in
      (
        record po { potail = some index; pobuff = a3; pocount = po.pocount +ℤ pos 1 },
        ap (λ k. tail_insert po index k) e,
        refl,
        refl,
        refl,
        l3 ∙ l2 ∙ l1,
        Seg-append a3 none h (x ∷ xs) (some w) (some index) (index ∷ []) (some index) none s3
            (Seg-one a3 index (some w) none (ap (λ (t : PoItem). t.prev) self) behind),
      )

  pub inner_insert-cons :
      (h m n l : Link) (x : ℕ) (xs : List ℕ) (z : ℕ) (zs : List ℕ)
      → index < length po.pobuff
      → last x xs < length po.pobuff
      → z < length po.pobuff
      → Fresh index (x ∷ xs)
      → Fresh index (z ∷ zs)
      → Distinct (x ∷ xs ++ z ∷ zs)
      → Seg po.pobuff none h (x ∷ xs) m n
      → Seg po.pobuff m n (z ∷ zs) l none
      → (po' : PlayoutBuff) × (inner_insert po index z (item po.pobuff z).prev
          ≡ added misordered po')
        × (po'.pohead ≡ po.pohead)
        × (po'.potail ≡ po.potail)
        × (po'.pocount ≡ po.pocount +ℤ pos 1)
        × (po'.cycles ≡ po.cycles)
        × (length po'.pobuff ≡ length po.pobuff)
        × Seg po'.pobuff none h (x ∷ xs ++ index ∷ z ∷ zs) l none
  unfolding inner_insert
  inner_insert-cons h m n l x xs z zs b bw bz fx fz d s t =
      let a = po.pobuff in
      let w = last x xs in
      let dx = Distinct-left (x ∷ xs) (z ∷ zs) d in
      let dz = Distinct-right (x ∷ xs) (z ∷ zs) d in
      let apart = Distinct-apart (x ∷ xs) (z ∷ zs) d in
      let w_out = All-last (λ y. Fresh y (z ∷ zs)) x xs apart in
      let z_out = (Fresh-flip (x ∷ xs) (z ∷ zs) apart).0 in
      let v1 = i_prev a (some w) in
      let a1 = set a index v1 in
      let v2 = i_next a1 (some z) in
      let a2 = set a1 index v2 in
      let v3 = record (item a2 w) { next = some index } in
      let a3 = set a2 w v3 in
      let v4 = record (item a3 z) { prev = some index } in
      let a4 = set a3 z v4 in
      let l1 = length-set a index v1 in
      let l2 = length-set a1 index v2 ∙ l1 in
      let l3 = length-set a2 w v3 ∙ l2 in
      let l4 = length-set a3 z v4 ∙ l3 in
      let em = Seg-last a none h x xs m n s in
      let en : n ≡ some z = t.0 in
      let s0 = rw (em, en) at s in
      let t0 : Seg a (some w) (some z) (z ∷ zs) l none = (refl, t.1 ∙ em, t.2) in
      let s2 =
        Seg-set a1 index v2 none h (x ∷ xs) (some w) (some z) fx
          (Seg-set a index v1 none h (x ∷ xs) (some w) (some z) fx s0) in
      let t2 =
        Seg-set a1 index v2 (some w) (some z) (z ∷ zs) l none fz
          (Seg-set a index v1 (some w) (some z) (z ∷ zs) l none fz t0) in
      let s3 = Seg-set_next a2 none h x xs (some w) (some z) (some index) dx (rw l2 bw) s2 in
      let t3 = Seg-set a2 w v3 (some w) (some z) (z ∷ zs) l none w_out t2 in
      let s4 = Seg-set a3 z v4 none h (x ∷ xs) (some w) (some index) z_out s3 in
      let t4 = Seg-set_prev a3 (some w) (some z) z zs l none (some index) dz.0 (rw l3 bz) t3 in
      let at_index : item a4 index ≡ v2 =
        get_or-set_ne a3 z index v4 zero_item fz.0
        ∙ get_or-set_ne a2 w index v3 zero_item (All-last (λ y. y ≢ index) x xs fx)
        ∙ get_or-set_self a1 index v2 zero_item (rw l1 b) in
      let front : (item a4 index).prev ≡ some w =
        ap (λ (t : PoItem). t.prev) at_index
        ∙ ap (λ (t : PoItem). t.prev) (get_or-set_self a index v1 zero_item b) in
      let mid = Seg-one a4 index (some w) (some z) front (ap (λ (t : PoItem). t.next) at_index) in
      (
        record po { pobuff = a4; pocount = po.pocount +ℤ pos 1 },
        ap (λ k. inner_insert po index z k) (t.1 ∙ em),
        refl,
        refl,
        refl,
        refl,
        l4,
        Seg-append a4 none h (x ∷ xs) (some w) (some index) (index ∷ z ∷ zs) l none s4 (
            Seg-append a4 (some w) (some index) (index ∷ []) (some index) (some z) (z ∷ zs) l none
              mid t4),
      )
