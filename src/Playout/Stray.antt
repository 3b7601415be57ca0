-- ===== src/Playout/Stray.antt =====
-- poadd.c looks at the packet behind each element that it passes, also at pobuff[-1] behind the last
-- one. What lies there does not matter.
use libnemesi.Common.{
  ℕ, suc, ◌<◌, ◌≡◌, refl, sym, ap, ◌∙◌, subst, ◌⊎◌, inl, inr, some, none, List, [], ◌∷◌, arith, ltb,
  length, Bool-cases,
}
use libnemesi.Common.Int.{pos_part}
use libnemesi.Packet.{Slot}
use libnemesi.Playout.{
  PlayoutBuff, next_cycles, po_get_pkg, key, is_duplicate, place, after_loop, poadd,
}
use libnemesi.Playout.Segment.{first}
use libnemesi.Playout.Unlink.{IsPlayout}
use libnemesi.Playout.Locate.{
  Walk, pass, stop, locate, locate-nil, locate-pass, locate-stop, poadd_loop-locate,
}

-- Two walks that `poadd` cannot tell apart.
abbrev Alike : Walk → Walk → Type 0
Alike v w = (v.passed ≡ w.passed) × (v.left ≡ w.left) × ((v.left ≡ []) ⊎ (v.r_cycles ≡ w.r_cycles))

module _ (b c : Slot) (slots : List Slot) (cseq : ℕ) where
  Alike-pass : (x : ℕ) (v w v' w' : Walk) → v ≡ pass x v' → w ≡ pass x w' → Alike v' w' → Alike v w
  Alike-pass x v w v' w' p q (a, l, r) =
      subst (λ u. Alike u w) (sym p)
        (subst (λ u. Alike (pass x v') u) (sym q) (ap (λ t. x ∷ t) a, l, r))

  next_cycles-same :
      (x y r : ℕ) → next_cycles b slots x (some y) r ≡ next_cycles c slots x (some y) r
  unfolding next_cycles po_get_pkg
  next_cycles-same x y r = refl

  locate-Alike : (r : ℕ) (xs : List ℕ) → Alike (locate b slots cseq r xs) (locate c slots cseq r xs)
  locate-Alike r [] =
      subst (λ u. Alike u (locate c slots cseq r [])) (sym (locate-nil b slots cseq r))
        (subst (λ u. Alike (stop [] r) u) (sym (locate-nil c slots cseq r)) (refl, refl, inl refl))
  locate-Alike r (x ∷ []) = elim (Bool-cases (ltb cseq (key slots r x))) [
    | inl e ↦
        Alike-pass x (locate b slots cseq r (x ∷ [])) (locate c slots cseq r (x ∷ []))
          (stop [] (next_cycles b slots x none r)) (stop [] (next_cycles c slots x none r))
          (locate-pass b slots cseq r x [] e
            ∙ ap (pass x) (locate-nil b slots cseq (next_cycles b slots x none r)))
          (locate-pass c slots cseq r x [] e
            ∙ ap (pass x) (locate-nil c slots cseq (next_cycles c slots x none r)))
          (refl, refl, inl refl)
    | inr e ↦
        subst (λ u. Alike u (locate c slots cseq r (x ∷ [])))
          (sym (locate-stop b slots cseq r x [] e))
          (subst (Alike (stop (x ∷ []) r)) (sym (locate-stop c slots cseq r x [] e))
            (refl, refl, inr refl))
  ]
  locate-Alike r (x ∷ y ∷ ys) =
      let k = next_cycles c slots x (some y) r in
      let rest = locate-Alike k (y ∷ ys) in
      elim (Bool-cases (ltb cseq (key slots r x))) [
        | inl e ↦
            Alike-pass x (locate b slots cseq r (x ∷ y ∷ ys)) (locate c slots cseq r (x ∷ y ∷ ys))
              (locate b slots cseq k (y ∷ ys)) (locate c slots cseq k (y ∷ ys))
              (locate-pass b slots cseq r x (y ∷ ys) e
                ∙ ap (λ t. pass x (locate b slots cseq t (y ∷ ys))) (next_cycles-same x y r))
              (locate-pass c slots cseq r x (y ∷ ys) e) rest
        | inr e ↦
            subst (λ u. Alike u (locate c slots cseq r (x ∷ y ∷ ys)))
              (sym (locate-stop b slots cseq r x (y ∷ ys) e))
              (subst (Alike (stop (x ∷ y ∷ ys) r)) (sym (locate-stop c slots cseq r x (y ∷ ys) e))
                (refl, refl, inr refl))
      ]

module _ (slots : List Slot) (po : PlayoutBuff) (index cycles : ℕ) where
  place-Alike :
      (v w : Walk)
      → Alike v w
      → place slots po index cycles (key slots cycles index) (first v.left) v.r_cycles
        ≡ place slots po index cycles (key slots cycles index) (first w.left) w.r_cycles
  unfolding place is_duplicate
  place-Alike v w (p, l, inl e) =
      let cseq = key slots cycles index in
      ap (λ t. place slots po index cycles cseq (first t) v.r_cycles) e
      ∙ ap (λ t. place slots po index cycles cseq (first t) w.r_cycles) (sym e ∙ l)
  place-Alike v w (p, l, inr e) =
      let cseq = key slots cycles index in
      ap (λ t. place slots po index cycles cseq (first t) v.r_cycles) l
      ∙ ap (λ t. place slots po index cycles cseq (first w.left) t) e

  -- On a valid playout buffer the outcome of poadd is the same whatever lies in front of the pool,
  -- which its loop reads as the packet behind the last element.
  pub poadd-same :
      (b c : Slot) (xs : List ℕ)
      → IsPlayout po xs
      → poadd b slots po index cycles ≡ poadd c slots po index cycles
  unfolding poadd after_loop
  poadd-same b c xs v =
      let cseq = key slots cycles index in
      let fuel = suc (pos_part po.pocount) in
      let enough = subst (λ k. length xs < suc (pos_part k)) (sym v.count) (omega arith) in
      ap (after_loop slots po index cycles cseq) (
        poadd_loop-locate b slots po.pobuff cseq fuel none po.pohead xs po.potail po.cycles v.chain
          enough)
      ∙ place-Alike (locate b slots cseq po.cycles xs) (locate c slots cseq po.cycles xs)
          (locate-Alike b c slots cseq po.cycles xs)
      ∙ ap (after_loop slots po index cycles cseq) (
          sym (
            poadd_loop-locate c slots po.pobuff cseq fuel none po.pohead xs po.potail po.cycles
              v.chain enough))
