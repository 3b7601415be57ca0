-- ===== src/Bufferpool/FreeList.antt =====
-- The free list of the pool: what bpinit.c, bpget.c and bpfree.c do to it.
use libnemesi.Common.{
  ℕ, zero, suc, ◌+◌, ◌-◌, ◌%◌, ◌<◌, ◌≤◌, ◌≡◌, ◌≢◌, refl, sym, ap, ◌∙◌, subst, true, none, some,
  List, [], ◌∷◌, ◌++◌, arith, get_or, set, replicate, length, length-set, length-replicate,
  get_or-set_self, get_or-set_ne, All, All-append, All-map, Fresh, Distinct, Distinct-append,
}
use libnemesi.Common.Int.{pos}
use libnemesi.Bufferpool.{
  Link, BufferPool, bp_slot_num, bp_max_size, thread_links, init, new_pool, bpinit, zero_slot,
}

-- From the link `h` the free list leads through `xs`.
abbrev pub Chain : List Link → Link → List ℕ → Type 0
Chain fl h [] = h ≡ none
Chain fl h (x ∷ xs) = (h ≡ some x) × Chain fl (get_or fl x none) xs

-- The slots of the pool are those in the free list, `free`, and those in use, `used`.
pub record IsPool (bp : BufferPool) (free used : List ℕ) : Type 0 where
  pub chain : Chain bp.freelist bp.flhead free
  pub distinct : Distinct (free ++ used)
  pub in_range : All (λ x. x < bp.size) (free ++ used)
  pub complete : length free + length used ≡ bp.size
  pub count : bp.flcount ≡ pos (length used)
  pub links : length bp.freelist ≡ bp.size
  pub slots : length bp.bufferpool ≡ bp.size
  pub whole : bp.size % bp_slot_num ≡ 0
  pub bounded : bp.size ≤ bp_max_size

pub Chain-set :
    (fl : List Link) (y : ℕ) (v h : Link) (xs : List ℕ)
    → Fresh y xs
    → Chain fl h xs
    → Chain (set fl y v) h xs
Chain-set fl y v h [] f c = c
Chain-set fl y v h (x ∷ xs) f c =
    rw (get_or-set_ne fl y x v none (λ e. f.0 (sym e)))
      (c.0, Chain-set fl y v (get_or fl x none) xs f.1 c.1)

-- The numbers from `i` on, `k` of them.
unfoldable pub range : ℕ → ℕ → List ℕ
range i zero = []
range i (suc k) = i ∷ range (i + 1) k

pub length-range : (i k : ℕ) → length (range i k) ≡ k
unfolding range
length-range i zero = refl
length-range i (suc k) = ap suc (length-range (i + 1) k)

pub All-range-lt : (i k n : ℕ) → i + k ≤ n → All (λ x. x < n) (range i k)
unfolding range
All-range-lt i zero n h = tt
All-range-lt i (suc k) n h = (omega arith, All-range-lt (i + 1) k n (omega arith))

pub All-range-ge : (i k n : ℕ) → n ≤ i → All (λ x. n ≤ x) (range i k)
unfolding range
All-range-ge i zero n h = tt
All-range-ge i (suc k) n h = (h, All-range-ge (i + 1) k n (omega arith))

pub Distinct-range : (i k : ℕ) → Distinct (range i k)
unfolding range
Distinct-range i zero = tt
Distinct-range i (suc k) = (
  All-map (λ x. i + 1 ≤ x) (λ x. x ≢ i) (λ x h. omega arith) (range (i + 1) k)
      (All-range-ge (i + 1) k (i + 1) (omega arith)),
  Distinct-range (i + 1) k,
)

pub length-thread_links : (fl : List Link) (i k : ℕ) → length (thread_links fl i k) ≡ length fl
unfolding thread_links
length-thread_links fl i zero = refl
length-thread_links fl i (suc k) =
    length-thread_links (set fl i (some (i + 1))) (i + 1) k ∙ length-set fl i (some (i + 1))

-- The loop writes only from `i` on.
get_or-thread_links :
    (fl : List Link) (i k j : ℕ) → j < i → get_or (thread_links fl i k) j none ≡ get_or fl j none
unfolding thread_links
get_or-thread_links fl i zero j h = refl
get_or-thread_links fl i (suc k) j h =
    get_or-thread_links (set fl i (some (i + 1))) (i + 1) k j (omega arith)
    ∙ get_or-set_ne fl i j (some (i + 1)) none (omega arith)

-- After the loop and the write of the end mark the entries lead from `i` to the last one.
pub Chain-thread_links :
    (fl : List Link) (i k : ℕ)
    → i + suc k ≤ length fl
    → Chain (set (thread_links fl i (suc k)) (i + k) none) (some i) (range i (suc k))
unfolding thread_links range
Chain-thread_links fl i zero h = (
  refl,
  subst (λ j. get_or (set (set fl i (some (i + 1))) j none) i none ≡ none) (omega arith)
      (get_or-set_self (set fl i (some (i + 1))) i none none
        (rw (length-set fl i (some (i + 1))) (omega arith))),
)
Chain-thread_links fl i (suc k) h =
    let fl1 = set fl i (some (i + 1)) in
    let t = thread_links fl1 (i + 1) (suc k) in
    let rest =
      Chain-thread_links fl1 (i + 1) k (rw (length-set fl i (some (i + 1))) (omega arith)) in
    let rest' =
      subst (λ j. Chain (set t j none) (some (i + 1)) (range (i + 1) (suc k)))
        (let e : i + 1 + k ≡ i + suc k = omega arith in e) rest in
    (
      refl,
      (
        get_or-set_ne t (i + suc k) i none none (omega arith)
            ∙ get_or-thread_links fl1 (i + 1) (suc k) i (omega arith)
            ∙ get_or-set_self fl i (some (i + 1)) none (omega arith),
        rest'.1,
      ),
    )

range-free : (n : ℕ) → (Distinct (range 0 n ++ [])) × All (λ x. x < n) (range 0 n ++ [])
range-free n = (
  Distinct-append (range 0 n) [] (Distinct-range 0 n) tt (
      All-map (λ x. x < n) (λ x. Unit {0}) (λ x h. tt) (range 0 n)
        (All-range-lt 0 n n (omega arith))),
  All-append (λ x. x < n) (range 0 n) [] (All-range-lt 0 n n (omega arith)) tt,
)

new_links : ℕ → List Link
new_links n = set (thread_links (replicate n (some 0)) 0 n) (n - 1) none

new_links-Chain : (n : ℕ) → Chain (new_links (suc n)) (some 0) (range 0 (suc n))
unfolding new_links
new_links-Chain n =
    subst
      (λ j.
        Chain (set (thread_links (replicate (suc n) (some 0)) 0 (suc n)) j none) (some 0)
          (range 0 (suc n)))
      (let e : 0 + n ≡ suc n - 1 = omega arith in e)
      (Chain-thread_links (replicate (suc n) (some 0)) 0 n
        (rw (length-replicate {A = Link} (suc n) (some 0)) (omega arith)))

length-new_links : (n : ℕ) → length (new_links n) ≡ n
unfolding new_links
length-new_links n =
    length-set (thread_links (replicate n (some 0)) 0 n) (n - 1) none
    ∙ length-thread_links (replicate n (some 0)) 0 n
    ∙ length-replicate {A = Link} n (some 0)

pub new_pool-IsPool : IsPool new_pool (range 0 bp_slot_num) []
unfolding new_pool new_links
new_pool-IsPool = record {
  chain = new_links-Chain 149;
  distinct = (range-free bp_slot_num).0;
  in_range = (range-free bp_slot_num).1;
  complete = omega (arith, length-range 0 bp_slot_num);
  count = refl;
  links = length-new_links bp_slot_num;
  slots = length-replicate bp_slot_num zero_slot;
  whole = omega arith;
  bounded = omega arith;
}

-- When malloc and the pthread calls succeed, bpinit makes a pool in which all BP_SLOT_NUM slots
-- are free, in ascending order.
pub bpinit-IsPool :
    (bp : BufferPool) × (bpinit true 0 0 0 ≡ init bp) × IsPool bp (range 0 bp_slot_num) []
unfolding bpinit
bpinit-IsPool = (new_pool, refl, new_pool-IsPool)
