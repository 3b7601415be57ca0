-- ===== src/Rtp/Buffer/Clear.antt =====
-- Emptying a playout buffer.
use libnemesi.Common.{
  ℕ, zero, suc, ◌<◌, ◌≡◌, refl, sym, ap, ◌∙◌, subst, none, some, List, [], ◌∷◌, ◌++◌, arith, length,
  length-append, Option,
}
use mathlib.Core.List.{append_assoc, append-nil}
use libnemesi.Common.Int.{pos_part}
use libnemesi.Bufferpool.{give_back}
use libnemesi.Playout.{PlayoutBuff, podel}
use libnemesi.Playout.Segment.{Seg-split}
use libnemesi.Playout.Unlink.{IsPlayout}
use libnemesi.Playout.Joint.{IsJoint, release-IsJoint}
use libnemesi.Rtp.Buffer.{Buffers, clear_loop, rtp_rm_all_pkts}

-- The last element of a non-empty list, split off.
pub snoc : (x : ℕ) (xs : List ℕ) → (ys : List ℕ) × (y : ℕ) × (x ∷ xs ≡ ys ++ y ∷ [])
snoc x [] = ([], x, refl)
snoc x (z ∷ zs) = let (ys, y, e) = snoc z zs in (x ∷ ys, y, ap (λ l. x ∷ l) e)

-- The tail of a valid playout buffer.
pub potail-nil : {po : PlayoutBuff} → IsPlayout po [] → po.potail ≡ none
potail-nil v = v.chain.0

pub potail-snoc :
    {po : PlayoutBuff} (ys : List ℕ) (y : ℕ) → IsPlayout po (ys ++ y ∷ []) → po.potail ≡ some y
potail-snoc {po} ys y v =
    let (m, n, s, t) = Seg-split po.pobuff none po.pohead ys (y ∷ []) po.potail none v.chain in
    t.2.0

-- The buffers of a session: `xs` is what the playout buffer holds, newest first.
abbrev pub AreValid : Buffers → List ℕ → List ℕ → List ℕ → Type 0
AreValid b free held xs = IsJoint b.bp b.po free held xs

module _ (held : List ℕ) where
  Cleared : List ℕ → List ℕ → Option Buffers → Type 0
  Cleared free xs r = (b' : Buffers) × (r ≡ some b') × AreValid b' (xs ++ free) held []

  clear_loop-end : (n : ℕ) (b : Buffers) → b.po.potail ≡ none → clear_loop (suc n) b ≡ some b
  unfolding clear_loop
  clear_loop-end n b e = ground arith

  clear_loop-step :
      (n : ℕ) (b : Buffers) (y : ℕ)
      → b.po.potail ≡ some y
      → clear_loop (suc n) b ≡ clear_loop n (record { bp = give_back b.bp y; po = podel b.po y })
  unfolding clear_loop
  clear_loop-step n b y e = ground arith

  clear_loop-Cleared :
      (n : ℕ) (b : Buffers) (free xs : List ℕ)
      → AreValid b free held xs
      → length xs < n
      → Cleared free xs (clear_loop n b)
  unfolding Cleared
  clear_loop-Cleared zero b free xs v h = absurd (omega arith)
  clear_loop-Cleared (suc n) b free [] v h = (b, clear_loop-end n b (potail-nil v.playout), v)
  clear_loop-Cleared (suc n) b free (x ∷ xs) v h =
      let (ys, y, e) = snoc x xs in
      let v' = subst (λ l. AreValid b free held l) e v in
      let b1 : Buffers = record { bp = give_back b.bp y; po = podel b.po y } in
      let v1 =
        subst (λ l. AreValid b1 (y ∷ free) held l) (append-nil ys)
          (release-IsJoint b.bp b.po free held ys y [] v') in
      let (b2, q, v2) =
        clear_loop-Cleared n b1 (y ∷ free) ys v1
          (omega (arith, ap length e, length-append ys (y ∷ []))) in
      (
        b2,
        clear_loop-step n b y (potail-snoc ys y v'.playout) ∙ q,
        subst (λ l. AreValid b2 l held [])
            (sym (append_assoc ys (y ∷ []) free) ∙ ap (λ l. l ++ free) (sym e)) v2,
      )

-- On valid buffers rtp_rm_all_pkts returns. The playout buffer is then empty, all its slots are in
-- front of the free list in the order of the playout buffer, and the slots that others hold stay
-- held.
pub rtp_rm_all_pkts-AreValid :
    (b : Buffers) (free held xs : List ℕ)
    → AreValid b free held xs
    → (b' : Buffers) × (rtp_rm_all_pkts b ≡ some b') × AreValid b' (xs ++ free) held []
unfolding rtp_rm_all_pkts Cleared
rtp_rm_all_pkts-AreValid b free held xs v =
    clear_loop-Cleared held (suc (pos_part b.po.pocount)) b free xs v
      (subst (λ c. length xs < suc (pos_part c)) (sym v.playout.count) (omega arith))
