-- ===== src/Bufferpool/Free.antt =====
-- bpfree.c: giving a slot back to the pool.
use libnemesi.Common.{
  ℕ, suc, ◌<◌, ◌≡◌, ◌≢◌, refl, ap, ◌∙◌, none, List, [], ◌∷◌, ◌++◌, arith, get_or, length,
  length-set, length-append, get_or-set_self, get_or-set_ne, All-left, All-right, All-remove, Fresh,
  Distinct, Distinct-remove, Fresh-middle,
}
use mathlib.Core.List.{append_assoc}
use libnemesi.Common.Int.{ℤ, pos, ◌-ℤ◌, int_laws}
use libnemesi.Bufferpool.{BufferPool, give_back, bpfree, zero_slot}
use libnemesi.Bufferpool.FreeList.{Chain-set, IsPool}

pub give_back-IsPool :
    (bp : BufferPool) (free before : List ℕ) (y : ℕ) (after : List ℕ)
    → IsPool bp free (before ++ y ∷ after)
    → IsPool (give_back bp y) (y ∷ free) (before ++ after)
unfolding give_back
give_back-IsPool bp free before y after v = record {
  chain = (
    refl,
    rw (get_or-set_self bp.freelist y bp.flhead none (rw v.links y_lt)) (
        Chain-set bp.freelist y bp.flhead bp.flhead free
          (All-left (λ z. z ≢ y) free (before ++ after) (fresh)) v.chain),
  );
  distinct = (fresh, rest);
  in_range = (
    y_lt,
    rw (append_assoc free before after) at (
        All-remove (λ z. z < bp.size) (free ++ before) after y
          (rw (← append_assoc free before (y ∷ after)) at v.in_range)),
  );
  complete =
      omega (arith, v.complete, length-append before (y ∷ after), length-append before after);
  count = less (length (before ++ after)) bp.flcount (
      v.count
      ∙ ap pos (omega (arith, length-append before (y ∷ after), length-append before after)));
  links = length-set bp.freelist y bp.flhead ∙ v.links;
  slots = v.slots;
  whole = v.whole;
  bounded = v.bounded;
}
  where
    regroup : Distinct ((free ++ before) ++ y ∷ after)
    regroup = rw (append_assoc free before (y ∷ after)) v.distinct

    fresh : Fresh y (free ++ (before ++ after))
    fresh = rw (append_assoc free before after) at (Fresh-middle (free ++ before) after y regroup)

    rest : Distinct (free ++ (before ++ after))
    rest = rw (append_assoc free before after) at (Distinct-remove (free ++ before) after y regroup)

    y_lt : y < bp.size
    y_lt =
        (All-right (λ z. z < bp.size) before (y ∷ after)
          (All-right (λ z. z < bp.size) free (before ++ (y ∷ after)) v.in_range)).0

    less : (n : ℕ) (c : ℤ) → c ≡ pos (suc n) → c -ℤ pos 1 ≡ pos n
    less n c e = rw e (omega int_laws)

pub used-lt :
    (bp : BufferPool) (free before : List ℕ) (y : ℕ) (after : List ℕ)
    → IsPool bp free (before ++ y ∷ after)
    → y < bp.size
used-lt bp free before y after v =
    (All-right (λ z. z < bp.size) before (y ∷ after)
      (All-right (λ z. z < bp.size) free (before ++ (y ∷ after)) v.in_range)).0

-- bpfree makes a held slot the first of the free list. The other slots stay held, no packet but the
-- one in the freed slot is touched, and that one is cleared.
pub bpfree-IsPool :
    (bp : BufferPool) (free before : List ℕ) (y : ℕ) (after : List ℕ)
    → IsPool bp free (before ++ y ∷ after)
    → IsPool (bpfree bp y) (y ∷ free) (before ++ after)
      × ((i : ℕ) → y ≢ i → get_or (bpfree bp y).bufferpool i [] ≡ get_or bp.bufferpool i [])
      × (get_or (bpfree bp y).bufferpool y [] ≡ zero_slot)
unfolding bpfree give_back
bpfree-IsPool bp free before y after v =
    let g = give_back-IsPool bp free before y after v in
    (
      record {
        chain = g.chain;
        distinct = g.distinct;
        in_range = g.in_range;
        complete = g.complete;
        count = g.count;
        links = g.links;
        slots = length-set bp.bufferpool y zero_slot ∙ v.slots;
        whole = g.whole;
        bounded = g.bounded;
      },
      λ i ne. get_or-set_ne bp.bufferpool y i zero_slot [] ne,
      get_or-set_self bp.bufferpool y zero_slot [] (rw v.slots (used-lt bp free before y after v)),
    )
