-- ===== src/Utils/Timeval.antt =====
-- src/utils/timeval.c: sums and differences of times, over C's signed integers.
pub mod Exact
use libnemesi.Common.{
  ℕ, suc, ◌+◌, ◌-◌, ◌*◌, ◌/◌, ◌≤◌, ◌<◌, ◌≡◌, refl, Bool, true, false, ◌&&◌, ◌||◌, ◌↔◌, arith, ltb,
  leb, ◌==◌, ltb→lt, Bool-cases, inl, inr, sym, subst, ap, ◌∙◌, if◌then◌else◌,
}
use libnemesi.Common.Int.{
  ℤ, pos, negsuc, pos_part, neg_part, ◌+ℤ◌, ◌-ℤ◌, ◌≤ℤ◌, ◌<ℤ◌, ltb_ℤ, int_laws, +ℤ_parts, -ℤ_parts,
  part_zero,
}
use libnemesi.Rtp.Source.{TimeVal}

abbrev pub million : ℕ
million = 1000000

unfoldable pub nms_timeval_add : TimeVal → TimeVal → TimeVal
nms_timeval_add x y =
    let sec = x.sec +ℤ y.sec in
    let usec = x.usec +ℤ y.usec in
    if ltb_ℤ (pos million) usec
    then record { sec = sec +ℤ pos 1; usec = usec -ℤ pos million }
    else record { sec = sec; usec = usec }

-- The first carry: `z` with more seconds, while its microseconds exceed those of `x`. The numerator
-- of the division is positive.
unfoldable pub borrow : TimeVal → TimeVal → TimeVal
borrow x z =
    if ltb_ℤ x.usec z.usec
    then (let nsec = pos_part (z.usec -ℤ x.usec) / million + 1 in
        record { sec = z.sec +ℤ pos nsec; usec = z.usec -ℤ pos (million * nsec) })
    else z

-- The second carry, the other way.
unfoldable pub carry : TimeVal → TimeVal → TimeVal
carry x z =
    if ltb_ℤ (pos million) (x.usec -ℤ z.usec)
    then (let nsec = pos_part (x.usec -ℤ z.usec) / million in
        record { sec = z.sec -ℤ pos nsec; usec = z.usec +ℤ pos (million * nsec) })
    else z

abbrev pub eqb_ℤ : ℤ → ℤ → Bool
eqb_ℤ a b = (pos_part a + neg_part b) == (pos_part b + neg_part a)

-- The two differences, and the test that the function returns.
unfoldable pub difference : TimeVal → TimeVal → TimeVal × Bool
difference x z = (
  record { sec = x.sec -ℤ z.sec; usec = x.usec -ℤ z.usec },
  ltb_ℤ x.sec z.sec || eqb_ℤ x.sec z.sec && ltb_ℤ x.usec z.usec,
)

-- The difference, and whether it is said to be negative.
unfoldable pub nms_timeval_subtract : TimeVal → TimeVal → TimeVal × Bool
unfolding borrow carry difference
nms_timeval_subtract x y = difference x (carry x (borrow x y))
