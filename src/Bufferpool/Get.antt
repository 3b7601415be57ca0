-- ===== src/Bufferpool/Get.antt =====
-- bpget.c and bpenlarge: taking a slot from the pool.
use libnemesi.Common.{
  ℕ, suc, ◌+◌, ◌-◌, ◌<◌, ◌≤◌, ◌≡◌, ◌≢◌, refl, ap, ◌∙◌, subst, ◌⊎◌, inl, inr, Option, none, some,
  List, [], ◌∷◌, ◌++◌, arith, get_or, set, replicate, length, length-set, length-append,
  length-replicate, get_or-append_left, leb, leb→le, All, All-append, All-map, All-insert, Fresh,
  Distinct-append, Distinct-insert, Bool-cases,
}
use libnemesi.Common.Int.{ℤ, pos, ◌+ℤ◌, int_laws}
use libnemesi.Bufferpool.{
  Link, BufferPool, bp_slot_num, bp_max_size, thread_links, larger, new_pool, bpenlarge, Got, slot,
  waiting, take_head, bpget_loop, bpget, zero_slot,
}
use libnemesi.Bufferpool.FreeList.{
  Chain, IsPool, range, length-range, All-range-lt, All-range-ge, Distinct-range,
  length-thread_links, Chain-thread_links, new_pool-IsPool,
}

-- The entries of the packet array below `n` are the same in both pools.
abbrev pub SameSlots : ℕ → BufferPool → BufferPool → Type 0
SameSlots n bp bp' = (i : ℕ) → i < n → get_or bp'.bufferpool i [] ≡ get_or bp.bufferpool i []

-- A slot `x` was taken that no one held; the pool is valid, and no packet in it was touched.
abbrev pub Taken : BufferPool → List ℕ → Option Got → Type 0
Taken bp used r =
    (x : ℕ) × (bp' : BufferPool) × (free : List ℕ) × (r ≡ some (slot x bp'))
    × IsPool bp' free (x ∷ used)
    × SameSlots bp.size bp bp'

-- All slots of a pool of maximum size are held, and the call waits.
abbrev pub Full : BufferPool → List ℕ → Option Got → Type 0
Full bp used r = (length used ≡ bp_max_size) × (r ≡ some (waiting bp))

abbrev pub taken : BufferPool → ℕ → BufferPool
taken bp x = record bp { flhead = get_or bp.freelist x none; flcount = bp.flcount +ℤ pos 1 }

take_head-IsPool :
    (bp : BufferPool) (x : ℕ) (xs used : List ℕ)
    → IsPool bp (x ∷ xs) used
    → (take_head bp x ≡ slot x (taken bp x))
      × IsPool (taken bp x) xs (x ∷ used)
      × SameSlots bp.size bp (taken bp x)
unfolding take_head
take_head-IsPool bp x xs used v = (
  refl,
  record {
    chain = v.chain.1;
    distinct = Distinct-insert x xs used v.distinct.0 v.distinct.1;
    in_range = All-insert (λ y. y < bp.size) xs used x v.in_range.0 v.in_range.1;
    complete = omega (arith, v.complete);
    count = more (length used) bp.flcount v.count;
    links = v.links;
    slots = v.slots;
    whole = v.whole;
    bounded = v.bounded;
  },
  λ i h. refl,
)
  where
    more : (n : ℕ) (c : ℤ) → c ≡ pos n → c +ℤ pos 1 ≡ pos (suc n)
    more n c e = rw e (omega int_laws)

range-suc : (i k : ℕ) → range i (suc k) ≡ i ∷ range (i + 1) k
unfolding range
range-suc i k = refl

module _ (stale : Link) (bp : BufferPool) where
  bpget_loop-some :
      (n x : ℕ) → bp.flhead ≡ some x → bpget_loop stale (suc n) bp ≡ some (take_head bp x)
  unfolding bpget_loop
  bpget_loop-some n x e = rw e refl

  bpget_loop-grow :
      (n : ℕ) (l : BufferPool)
      → bp.flhead ≡ none
      → bpenlarge stale bp ≡ some l
      → bpget_loop stale (suc n) bp ≡ bpget_loop stale n l
  unfolding bpget_loop
  bpget_loop-grow n l e g = ground arith

  bpget_loop-wait :
      (n : ℕ)
      → bp.flhead ≡ none
      → bpenlarge stale bp ≡ none
      → bpget_loop stale (suc n) bp ≡ some (waiting bp)
  unfolding bpget_loop
  bpget_loop-wait n e g = ground arith

module _ (stale : Link) (bp : BufferPool) (used : List ℕ) (v : IsPool bp [] used) where
  old_links : List Link
  old_links = bp.freelist ++ replicate bp_slot_num stale

  length-old_links : length old_links ≡ bp.size + bp_slot_num
  unfolding old_links
  length-old_links = omega (
    arith,
    length-append bp.freelist (replicate bp_slot_num stale),
    length-replicate {A = Link} bp_slot_num stale,
    v.links,
  )

  used-lt : All (λ x. x < bp.size) used
  used-lt = v.in_range

  larger-IsPool : bp.size < bp_max_size → IsPool (larger stale bp) (range bp.size bp_slot_num) used
  unfolding larger old_links
  larger-IsPool h = record {
    chain =
        subst
          (λ j.
            Chain (set (thread_links old_links bp.size bp_slot_num) j none) (some bp.size)
              (range bp.size bp_slot_num))
          (let e : bp.size + 149 ≡ bp.size + bp_slot_num - 1 = omega arith in e)
          (Chain-thread_links old_links bp.size 149 (omega (arith, length-old_links)));
    distinct =
        Distinct-append (range bp.size bp_slot_num) used (Distinct-range bp.size bp_slot_num)
          v.distinct
          (All-map (λ x. bp.size ≤ x) (λ x. Fresh x used)
            (λ x le. All-map (λ y. y < bp.size) (λ y. y ≢ x) (λ y lt. omega arith) used used-lt)
            (range bp.size bp_slot_num) (All-range-ge bp.size bp_slot_num bp.size (omega arith)));
    in_range =
        All-append (λ x. x < bp.size + bp_slot_num) (range bp.size bp_slot_num) used
          (All-range-lt bp.size bp_slot_num (bp.size + bp_slot_num) (omega arith))
          (All-map (λ y. y < bp.size) (λ y. y < bp.size + bp_slot_num) (λ y lt. omega arith) used
            used-lt);
    complete = omega (arith, length-range bp.size bp_slot_num, v.complete);
    count = v.count;
    links =
        length-set (thread_links old_links bp.size bp_slot_num) (bp.size + bp_slot_num - 1) none
        ∙ length-thread_links old_links bp.size bp_slot_num
        ∙ length-old_links;
    slots = omega (
      arith,
      length-append bp.bufferpool (replicate bp_slot_num zero_slot),
      length-replicate bp_slot_num zero_slot,
      v.slots,
    );
    whole = omega (arith, v.whole);
    bounded = omega (arith, v.whole, v.bounded);
  }

  flhead-larger : (larger stale bp).flhead ≡ some bp.size
  unfolding larger
  flhead-larger = refl

  size-larger : (i : ℕ) → i < bp.size → i < (larger stale bp).size
  unfolding larger
  size-larger i h = omega arith

  SameSlots-larger : SameSlots bp.size bp (larger stale bp)
  unfolding larger
  SameSlots-larger i h =
      get_or-append_left bp.bufferpool (replicate bp_slot_num zero_slot) i [] (rw v.slots h)

  bpget-nil : Taken bp used (bpget stale bp) ⊎ Full bp used (bpget stale bp)
  unfolding bpget bpenlarge
  bpget-nil = elim (Bool-cases (leb bp_max_size bp.size)) [
    | inl e ↦ inr (
      omega (arith, v.complete, v.bounded, leb→le bp_max_size bp.size e),
      bpget_loop-wait stale bp 1 v.chain (rw e refl),
    )
    | inr e ↦
        let l = larger stale bp in
        let (got, v', same) =
          take_head-IsPool l bp.size (range (bp.size + 1) 149) used
            (rw (range-suc bp.size 149) at (larger-IsPool (ground arith))) in
        inl (
          bp.size,
          taken l bp.size,
          range (bp.size + 1) 149,
          bpget_loop-grow stale bp 1 l v.chain (rw e refl)
              ∙ bpget_loop-some stale l 0 bp.size flhead-larger
              ∙ ap some got,
          v',
          λ i h. same i (size-larger i h) ∙ SameSlots-larger i h,
        )
  ]

-- On a valid pool, and where the calls of realloc in bpenlarge succeed, bpget returns or waits: two
-- rounds of its loop are enough. Either it takes a slot that no one holds, leaving every packet in the
-- pool as it is, or all BP_MAX_SIZE slots are held, and it waits with the pool unchanged.
pub bpget-Taken :
    (stale : Link) (bp : BufferPool) (free used : List ℕ)
    → IsPool bp free used
    → Taken bp used (bpget stale bp) ⊎ Full bp used (bpget stale bp)
unfolding bpget
bpget-Taken stale bp [] used v = bpget-nil stale bp used v
bpget-Taken stale bp (x ∷ xs) used v =
    let (got, v', same) = take_head-IsPool bp x xs used v in
    inl (x, taken bp x, xs, bpget_loop-some stale bp 1 x v.chain.0 ∙ ap some got, v', same)

-- A new pool after the first call of bpget, which takes slot 0.
unfoldable pub one_held : BufferPool
one_held = taken new_pool 0

pub one_held-IsPool : IsPool one_held (range 1 149) (0 ∷ [])
unfolding one_held
one_held-IsPool =
    (take_head-IsPool new_pool 0 (range 1 149) [] (rw (range-suc 0 149) at new_pool-IsPool)).1
