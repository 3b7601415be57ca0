-- ===== src/Utils/Timeval/Exact.antt =====
-- Sums and differences of times are exact.
use libnemesi.Common.{
  ℕ, ◌+◌, ◌*◌, ◌/◌, ◌≤◌, ◌<◌, ◌≡◌, Bool, true, false, ◌↔◌, arith, ltb→lt, Bool-cases, inl, inr, sym,
  subst, ap, ◌∙◌, if◌then◌else◌,
}
use libnemesi.Common.Int.{
  pos, pos_part, neg_part, ◌+ℤ◌, ◌-ℤ◌, ◌≤ℤ◌, ◌<ℤ◌, ltb_ℤ, +ℤ_parts, -ℤ_parts, part_zero,
}
use libnemesi.Rtp.Source.{TimeVal}
use libnemesi.Utils.Timeval.{
  million, nms_timeval_add, borrow, carry, difference, nms_timeval_subtract,
}

-- A time as the kernel gives it: microseconds below a million.
pub record IsNormal (t : TimeVal) : Type 0 where
  pub nonneg : pos 0 ≤ℤ t.usec
  pub below : t.usec <ℤ pos million

-- A time in microseconds, in two parts: `plus t` less `minus t`.
abbrev pub plus : TimeVal → ℕ
plus t = pos_part t.sec * million + pos_part t.usec

abbrev pub minus : TimeVal → ℕ
minus t = neg_part t.sec * million + neg_part t.usec

-- nms_timeval_add gives the exact sum, with the microseconds of two normal times brought to at most
-- a million: a sum of exactly a million is left as it is.
pub nms_timeval_add-exact :
    (x y : TimeVal)
    → IsNormal x
    → IsNormal y
    → let t = nms_timeval_add x y in
      (plus t + minus x + minus y ≡ minus t + plus x + plus y)
      × (pos 0 ≤ℤ t.usec)
      × (t.usec ≤ℤ pos million)
unfolding nms_timeval_add
nms_timeval_add-exact x y nx ny =
    let sec = x.sec +ℤ y.sec in
    let usec = x.usec +ℤ y.usec in
    ground (
      arith,
      +ℤ_parts x.sec y.sec,
      +ℤ_parts x.usec y.usec,
      +ℤ_parts sec (pos 1),
      -ℤ_parts usec (pos million),
      part_zero sec,
      part_zero usec,
      part_zero (usec -ℤ pos million),
    )

module _ (x y : TimeVal) where
  -- `y` after one second has been carried over.
  abbrev lent : TimeVal
  lent = record { sec = y.sec +ℤ pos 1; usec = y.usec -ℤ pos (million * 1) }

  module _ (nx : IsNormal x) (ny : IsNormal y) where
    one_second : pos_part (y.usec -ℤ x.usec) / million + 1 ≡ 1
    one_second = omega (
      arith,
      -ℤ_parts y.usec x.usec,
      part_zero (y.usec -ℤ x.usec),
      nx.nonneg,
      nx.below,
      ny.nonneg,
      ny.below,
    )

    borrow-lent : ltb_ℤ x.usec y.usec ≡ true → borrow x y ≡ lent
    unfolding borrow
    borrow-lent e =
        ap
          (λ t.
            if t
            then record {
              sec = y.sec +ℤ pos (pos_part (y.usec -ℤ x.usec) / million + 1);
              usec = y.usec -ℤ pos (million * (pos_part (y.usec -ℤ x.usec) / million + 1));
            }
            else y)
          e
        ∙ ap (λ n. record { sec = y.sec +ℤ pos n; usec = y.usec -ℤ pos (million * n) }) one_second

    borrow-same : ltb_ℤ x.usec y.usec ≡ false → borrow x y ≡ y
    unfolding borrow
    borrow-same e = ground arith

  carry-same : (z : TimeVal) → (x.usec -ℤ z.usec) ≤ℤ pos million → carry x z ≡ z
  unfolding carry
  carry-same z h = ground arith

  -- What nms_timeval_subtract must give.
  abbrev pub Difference : TimeVal × Bool → Type 0
  Difference (d, negative) =
      (plus d + minus x + plus y ≡ minus d + plus x + minus y)
      × (pos 0 ≤ℤ d.usec)
      × (d.usec <ℤ pos million)
      × ((negative ≡ true) ↔ (plus x + minus y < plus y + minus x))

  module _ (nx : IsNormal x) (ny : IsNormal y) where
    difference-lent : ltb_ℤ x.usec y.usec ≡ true → Difference (difference x lent)
    unfolding difference
    difference-lent e =
        let before : pos_part x.usec + neg_part y.usec < pos_part y.usec + neg_part x.usec =
          ltb→lt _ _ e in
        (
          omega (
            arith,
            -ℤ_parts y.usec (pos million),
            -ℤ_parts x.usec (y.usec -ℤ pos million),
            +ℤ_parts y.sec (pos 1),
            -ℤ_parts x.sec (y.sec +ℤ pos 1),
          ),
          omega (
            arith,
            -ℤ_parts y.usec (pos million),
            -ℤ_parts x.usec (y.usec -ℤ pos million),
            +ℤ_parts y.sec (pos 1),
            -ℤ_parts x.sec (y.sec +ℤ pos 1),
          ),
          omega (
            arith,
            -ℤ_parts y.usec (pos million),
            -ℤ_parts x.usec (y.usec -ℤ pos million),
            +ℤ_parts y.sec (pos 1),
            -ℤ_parts x.sec (y.sec +ℤ pos 1),
          ),
          (
            λ h. ground (
              arith,
              -ℤ_parts y.usec (pos million),
              -ℤ_parts x.usec (y.usec -ℤ pos million),
              +ℤ_parts y.sec (pos 1),
              -ℤ_parts x.sec (y.sec +ℤ pos 1),
              part_zero x.usec,
              part_zero y.usec,
              part_zero x.sec,
              part_zero y.sec,
            ),
            λ h. ground (
              arith,
              -ℤ_parts y.usec (pos million),
              -ℤ_parts x.usec (y.usec -ℤ pos million),
              +ℤ_parts y.sec (pos 1),
              -ℤ_parts x.sec (y.sec +ℤ pos 1),
              part_zero x.usec,
              part_zero y.usec,
              part_zero x.sec,
              part_zero y.sec,
            ),
          ),
        )

    difference-same : ltb_ℤ x.usec y.usec ≡ false → Difference (difference x y)
    unfolding difference
    difference-same e =
        let behind : pos_part y.usec + neg_part x.usec ≤ pos_part x.usec + neg_part y.usec =
          ground arith in
        (
          omega (arith, -ℤ_parts x.usec y.usec, -ℤ_parts x.sec y.sec),
          omega (arith, -ℤ_parts x.usec y.usec, -ℤ_parts x.sec y.sec),
          omega (arith, -ℤ_parts x.usec y.usec, -ℤ_parts x.sec y.sec),
          (
            λ h.
                ground
                  (arith, part_zero x.usec, part_zero y.usec, part_zero x.sec, part_zero y.sec),
            λ h.
                ground
                  (arith, part_zero x.usec, part_zero y.usec, part_zero x.sec, part_zero y.sec),
          ),
        )

  -- For normal times nms_timeval_subtract gives the exact difference, with its microseconds from 0
  -- to below a million, and returns 1 exactly when the first time is before the second.
  pub nms_timeval_subtract-Difference :
      IsNormal x → IsNormal y → Difference (nms_timeval_subtract x y)
  unfolding nms_timeval_subtract
  nms_timeval_subtract-Difference nx ny = elim (Bool-cases (ltb_ℤ x.usec y.usec)) [
    | inl e ↦
        subst (λ z. Difference (difference x z))
          (sym (
            ap (carry x) (borrow-lent nx ny e)
            ∙ carry-same lent (
                omega (
                  arith,
                  ltb→lt _ _ e,
                  -ℤ_parts y.usec (pos million),
                  -ℤ_parts x.usec (y.usec -ℤ pos million),
                  nx.nonneg,
                  nx.below,
                  ny.nonneg,
                  ny.below,
                ))))
          (difference-lent nx ny e)
    | inr e ↦
        subst (λ z. Difference (difference x z))
          (sym (
            ap (carry x) (borrow-same nx ny e)
            ∙ carry-same y
                (omega (arith, -ℤ_parts x.usec y.usec, nx.nonneg, nx.below, ny.nonneg, ny.below))))
          (difference-same nx ny e)
  ]
