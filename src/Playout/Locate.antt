-- ===== src/Playout/Locate.antt =====
-- The loop of poadd on a valid playout list: which elements it passes.
use libnemesi.Common.{
  ℕ, zero, suc, ◌<◌, ◌≡◌, refl, ap, some, none, List, [], ◌∷◌, ◌++◌, arith, inl, inr, ltb,
  if◌then◌else◌, Bool-cases, length, true, false,
}
use libnemesi.Packet.{Slot}
use libnemesi.Bufferpool.{Link}
use libnemesi.Playout.{PoItem, item, next_cycles, key, poadd_loop}
use libnemesi.Playout.Segment.{Seg, Seg-first, first}

-- Where the loop stops: the elements passed, those that are left, and `r_cycles`.
pub record Walk : Type 0 where
  pub passed : List ℕ
  pub left : List ℕ
  pub r_cycles : ℕ

abbrev pub pass : ℕ → Walk → Walk
pass x w = record w { passed = x ∷ w.passed }

abbrev pub stop : List ℕ → ℕ → Walk
stop xs r = record { passed = []; left = xs; r_cycles = r }

-- The loop over the list of slots that the links stand for: it passes an element while the new
-- packet's value is below the element's.
unfoldable pub locate : Slot → List Slot → ℕ → ℕ → List ℕ → Walk
locate before slots cseq r [] = stop [] r
locate before slots cseq r (x ∷ xs) =
    let w = locate before slots cseq (next_cycles before slots x (first xs) r) xs in
    if ltb cseq (key slots r x) then pass x w else stop (x ∷ xs) r

pub locate-append :
    (before : Slot) (slots : List Slot) (cseq r : ℕ) (xs : List ℕ)
    → let w = locate before slots cseq r xs in w.passed ++ w.left ≡ xs
unfolding locate
locate-append before slots cseq r [] = refl
locate-append before slots cseq r (x ∷ xs) = elim (Bool-cases (ltb cseq (key slots r x))) [
  | inl e ↦ rw e (
      ap (λ l. x ∷ l)
        (locate-append before slots cseq (next_cycles before slots x (first xs) r) xs))
  | inr e ↦ rw e refl
]

-- On a valid list with more fuel than elements the loop ends, and stops where `locate` does.
pub poadd_loop-locate :
    (before : Slot) (slots : List Slot) (a : List PoItem) (cseq fuel : ℕ) (p h : Link) (xs : List ℕ)
    (l : Link) (r : ℕ)
    → Seg a p h xs l none
    → length xs < fuel
    → let w = locate before slots cseq r xs in
      poadd_loop before slots a cseq fuel h r ≡ some (first w.left, w.r_cycles)
unfolding locate poadd_loop
poadd_loop-locate before slots a cseq zero p h xs l r s f = absurd (omega arith)
poadd_loop-locate before slots a cseq (suc fuel) p h [] l r s f = rw (s.1)
poadd_loop-locate before slots a cseq (suc fuel) p h (x ∷ xs) l r s f =
    rw (s.0) (elim (Bool-cases (ltb cseq (key slots r x))) [
      | inl e ↦
          rw (e, Seg-first a (some x) (item a x).next xs l s.2)
            (poadd_loop-locate before slots a cseq fuel (some x) (first xs) xs l
              (next_cycles before slots x (first xs) r)
              (rw (Seg-first a (some x) (item a x).next xs l s.2) at s.2) (omega arith))
      | inr e ↦ rw e refl
    ])

module _ (before : Slot) (slots : List Slot) (cseq r : ℕ) where
  pub locate-nil : locate before slots cseq r [] ≡ stop [] r
  unfolding locate
  locate-nil = refl

  pub locate-pass :
      (x : ℕ) (xs : List ℕ)
      → ltb cseq (key slots r x) ≡ true
      → locate before slots cseq r (x ∷ xs)
        ≡ pass x (locate before slots cseq (next_cycles before slots x (first xs) r) xs)
  unfolding locate
  locate-pass x xs e = rw e refl

  pub locate-stop :
      (x : ℕ) (xs : List ℕ)
      → ltb cseq (key slots r x) ≡ false
      → locate before slots cseq r (x ∷ xs) ≡ stop (x ∷ xs) r
  unfolding locate
  locate-stop x xs e = rw e refl
