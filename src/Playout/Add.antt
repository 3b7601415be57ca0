-- ===== src/Playout/Add.antt =====
-- poadd.c as a whole: on a valid playout buffer it inserts into a list.
use libnemesi.Common.{
  ℕ, suc, ◌<◌, ◌≡◌, ◌≢◌, refl, sym, ap, ◌∙◌, subst, ◌⊎◌, inl, inr, Bool, true, false, none, some,
  List, [], ◌∷◌, ◌++◌, arith, length, Bool-cases, All, All-left, All-right, All-last, Fresh,
  Distinct, Distinct-left, Distinct-insert, if◌then◌else◌, length-set, ◌==◌,
}
use libnemesi.Common.Int.{pos, pos_part, ◌+ℤ◌}
use libnemesi.Packet.{Slot}
use libnemesi.Bufferpool.{Link}
use libnemesi.Playout.{
  PlayoutBuff, item, set_prev, set_next, head_link, head_insert, behind_head, place, is_duplicate,
  link_eq, key, after_loop, poadd, AddResult, added, AddCode, in_order, duplicated, misordered,
}
use libnemesi.Playout.Segment.{Seg, Seg-split, Seg-first, first}
use libnemesi.Playout.Unlink.{IsPlayout}
use libnemesi.Playout.Locate.{Walk, locate, locate-append, poadd_loop-locate}
use libnemesi.Playout.Insert.{
  in_range-insert, count-insert, head_insert-nil, head_insert-cons, tail_insert-cons,
  inner_insert-cons,
}

-- What poadd answers when it links a packet in behind the elements `xs`.
abbrev pub code_of : List ℕ → AddCode
code_of [] = in_order
code_of (x ∷ xs) = misordered

-- `cycles` of the buffer after an insertion behind `xs`.
abbrev pub cycles_of : List ℕ → ℕ → ℕ → ℕ
cycles_of [] new old = new
cycles_of (x ∷ xs) new old = old

-- The new packet was linked in between `xs` and `ys`.
pub record Inserted (po : PlayoutBuff) (index cycles : ℕ) (xs ys : List ℕ) (r : AddResult)
    : Type 0 where
  pub after : PlayoutBuff
  pub result : r ≡ added (code_of xs) after
  pub valid : IsPlayout after (xs ++ index ∷ ys)
  pub cycles_after : after.cycles ≡ cycles_of xs cycles po.cycles
  pub size_after : length after.pobuff ≡ length po.pobuff

module _ (po : PlayoutBuff) (index cycles : ℕ) where
  length-head_insert : (h : Link) → length (head_insert po index cycles h).pobuff ≡ length po.pobuff
  unfolding head_insert head_link
  length-head_insert none =
      length-set (set_next po.pobuff index none) index
        (record (item (set_next po.pobuff index none) index) { prev = none })
      ∙ length-set po.pobuff index (record (item po.pobuff index) { next = none })
  length-head_insert (some i) =
      let a1 = set_next po.pobuff index (some i) in
      let a2 = set_prev a1 i (some index) in
      length-set a2 index (record (item a2 index) { prev = none })
      ∙ length-set a1 i (record (item a1 i) { prev = some index })
      ∙ length-set po.pobuff index (record (item po.pobuff index) { next = some i })

  pocount-head_insert : (h : Link) → (head_insert po index cycles h).pocount ≡ po.pocount +ℤ pos 1
  unfolding head_insert head_link
  pocount-head_insert none = refl
  pocount-head_insert (some i) = refl

  cycles-head_insert : (h : Link) → (head_insert po index cycles h).cycles ≡ cycles
  unfolding head_insert head_link
  cycles-head_insert none = refl
  cycles-head_insert (some i) = refl

  head-chain :
      (h : Link) (ys : List ℕ)
      → index < length po.pobuff
      → All (λ x. x < length po.pobuff) ys
      → Fresh index ys
      → Distinct ys
      → Seg po.pobuff none h ys po.potail none
      → let po' = head_insert po index cycles h in
        Seg po'.pobuff none po'.pohead (index ∷ ys) po'.potail none
  head-chain h [] b r f d s = head_insert-nil po index cycles h b s
  head-chain h (z ∷ zs) b r f d s = head_insert-cons po index cycles h z zs b r.0 f d s

  -- What follows the test for a duplicate.
  abbrev branch : Bool → Link → AddResult
  branch t i = if t then added in_order (head_insert po index cycles i) else behind_head po index i

  abbrev link_in : Link → AddResult
  link_in i = branch (link_eq i po.pohead) i

  link_in-Inserted :
      (xs ys : List ℕ)
      → IsPlayout po (xs ++ ys)
      → Fresh index (xs ++ ys)
      → index < length po.pobuff
      → Inserted po index cycles xs ys (link_in (first ys))
  unfolding behind_head
  link_in-Inserted [] ys v f b =
      let h = first ys in
      let e = Seg-first po.pobuff none po.pohead ys po.potail v.chain in
      record {
        after = head_insert po index cycles h;
        result = ap (λ k. branch (link_eq h k) h) e ∙ ap (λ t. branch t h) (link_eq_refl ys);
        valid = record {
          chain = head-chain h ys b v.in_range f v.distinct (rw e at v.chain);
          distinct = Distinct-insert index [] ys f v.distinct;
          in_range =
              subst (λ n. All (λ x. x < n) (index ∷ ys)) (sym (length-head_insert h))
                (in_range-insert index [] ys (length po.pobuff) b v.in_range);
          count = pocount-head_insert h ∙ count-insert index [] ys po.pocount v.count;
        };
        cycles_after = cycles-head_insert h;
        size_after = length-head_insert h;
      }
    where
      link_eq_refl : (zs : List ℕ) → link_eq (first zs) (first zs) ≡ true
      link_eq_refl [] = refl
      link_eq_refl (z ∷ zs) = ground arith
  link_in-Inserted (x ∷ xs) [] v f b =
      let l = po.potail in
      let (m, n, s, t) = Seg-split po.pobuff none po.pohead (x ∷ xs) [] l none v.chain in
      let d = Distinct-left (x ∷ xs) [] v.distinct in
      let r = All-left (λ y. y < length po.pobuff) (x ∷ xs) [] v.in_range in
      let fx = All-left (λ y. y ≢ index) (x ∷ xs) [] f in
      let bw = All-last (λ y. y < length po.pobuff) x xs r in
      let (po', done, he, ce, ye, se, c) =
        tail_insert-cons po index po.pohead l x xs b bw fx d (rw (t.1, ← t.0) at s) in
      record {
        after = po';
        result = ap (λ k. branch (link_eq none k) none) v.chain.0 ∙ done;
        valid = record {
          chain = rw he c;
          distinct = Distinct-insert index (x ∷ xs) [] f v.distinct;
          in_range =
              subst (λ n. All (λ y. y < n) (x ∷ xs ++ index ∷ [])) (sym se)
                (in_range-insert index (x ∷ xs) [] (length po.pobuff) b v.in_range);
          count = ce ∙ count-insert index (x ∷ xs) [] po.pocount v.count;
        };
        cycles_after = ye;
        size_after = se;
      }
  link_in-Inserted (x ∷ xs) (z ∷ zs) v f b =
      let l = po.potail in
      let (m, n, s, t) = Seg-split po.pobuff none po.pohead (x ∷ xs) (z ∷ zs) l none v.chain in
      let r = v.in_range in
      let rx = All-left (λ y. y < length po.pobuff) (x ∷ xs) (z ∷ zs) r in
      let rz = All-right (λ y. y < length po.pobuff) (x ∷ xs) (z ∷ zs) r in
      let fx = All-left (λ y. y ≢ index) (x ∷ xs) (z ∷ zs) f in
      let fz = All-right (λ y. y ≢ index) (x ∷ xs) (z ∷ zs) f in
      let bw = All-last (λ y. y < length po.pobuff) x xs rx in
      let (po', done, he, te, ce, ye, se, c) =
        inner_insert-cons po index po.pohead m n l x xs z zs b bw rz.0 fx fz v.distinct s t in
      record {
        after = po';
        result =
            ap (λ k. branch (link_eq (some z) k) (some z)) v.chain.0
            ∙ ap (λ k. branch k (some z))
                (other z (All-right (λ y. y ≢ x) xs (z ∷ zs) v.distinct.0).0)
            ∙ done;
        valid = record {
          chain = rw (he, te) c;
          distinct = Distinct-insert index (x ∷ xs) (z ∷ zs) f v.distinct;
          in_range =
              subst (λ n. All (λ y. y < n) (x ∷ xs ++ index ∷ z ∷ zs)) (sym se)
                (in_range-insert index (x ∷ xs) (z ∷ zs) (length po.pobuff) b v.in_range);
          count = ce ∙ count-insert index (x ∷ xs) (z ∷ zs) po.pocount v.count;
        };
        cycles_after = ye;
        size_after = se;
      }
    where
      other : (y : ℕ) → y ≢ x → (y == x) ≡ false
      other y h = ground arith

module _ (before : Slot) (slots : List Slot) (po : PlayoutBuff) (index cycles : ℕ) where
  -- What poadd must do to a playout list, when its loop stops as `w` says.
  abbrev pub Outcome : Walk → AddResult → Type 0
  Outcome w r =
      ((is_duplicate slots (key slots cycles index) (first w.left) w.r_cycles ≡ true)
        × (r ≡ added duplicated po))
      ⊎ ((is_duplicate slots (key slots cycles index) (first w.left) w.r_cycles ≡ false)
          × Inserted po index cycles w.passed w.left r)

  place-Outcome :
      (w : Walk)
      → IsPlayout po (w.passed ++ w.left)
      → Fresh index (w.passed ++ w.left)
      → index < length po.pobuff
      → Outcome w (place slots po index cycles (key slots cycles index) (first w.left) w.r_cycles)
  unfolding place
  place-Outcome w v f b =
      let cseq = key slots cycles index in
      elim (Bool-cases (is_duplicate slots cseq (first w.left) w.r_cycles)) [
        | inl e ↦ inl (e, choose e)
        | inr e ↦ inr (
          e,
          subst (Inserted po index cycles w.passed w.left) (sym (choose e))
              (link_in-Inserted po index cycles w.passed w.left v f b),
        )
      ]
    where
      choose :
          {t : Bool}
          → is_duplicate slots (key slots cycles index) (first w.left) w.r_cycles ≡ t
          → (if is_duplicate slots (key slots cycles index) (first w.left) w.r_cycles
              then added duplicated po
              else link_in po index cycles (first w.left))
            ≡ (if t then added duplicated po else link_in po index cycles (first w.left))
      choose e =
          ap (λ t. if t then added duplicated po else link_in po index cycles (first w.left)) e

  -- On a valid playout buffer, given a slot that is not in it and lies in range, poadd returns: its
  -- loop ends. It passes the elements that `locate` passes. If the element where it stops has the
  -- new packet's value, poadd answers PKT_DUPLICATED and changes nothing. Otherwise the buffer is
  -- valid again, with the slot between the elements passed and the others, all in their old order;
  -- poadd answers 0 and sets `cycles` if it passed none, else PKT_MISORDERED with `cycles` kept.
  pub poadd-Outcome :
      (xs : List ℕ)
      → IsPlayout po xs
      → Fresh index xs
      → index < length po.pobuff
      → Outcome
          (locate before slots (key slots cycles index) po.cycles xs)
          (poadd before slots po index cycles)
  unfolding poadd after_loop
  poadd-Outcome xs v f b =
      let cseq = key slots cycles index in
      let w = locate before slots cseq po.cycles xs in
      let e = locate-append before slots cseq po.cycles xs in
      let done =
        poadd_loop-locate before slots po.pobuff cseq (suc (pos_part po.pocount)) none po.pohead xs
          po.potail po.cycles v.chain
          (subst (λ c. length xs < suc (pos_part c)) (sym v.count) (omega arith)) in
      subst (Outcome w) (sym (ap (after_loop slots po index cycles cseq) done))
        (place-Outcome w (subst (IsPlayout po) (sym e) v) (subst (Fresh index) (sym e) f) b)
