-- ===== src/Bufferpool.antt =====
-- The pool of packet slots of src/bufferpool/ with its free list: bpinit.c, bpget.c, bpfree.c and
-- bpkill.c. A function that updates `*bp` returns the new value. Locking is left out: each function
-- holds its mutex from its first access to its last.
pub mod FreeList
pub mod Get
pub mod Free
mod Examples
use libnemesi.Common.{
  ℕ, zero, suc, ◌+◌, ◌-◌, Bool, Option, none, some, List, [], ◌++◌, ltb, leb, if◌then◌else◌, get_or,
  set, replicate,
}
use libnemesi.Common.Int.{ℤ, pos, ◌+ℤ◌, ◌-ℤ◌}
use libnemesi.Packet.{Slot}

-- An index that may be -1, which is `none`.
abbrev pub Link : Type 0
Link = Option ℕ

abbrev pub bp_slot_num : ℕ
bp_slot_num = 150

abbrev pub bp_slot_size : ℕ
bp_slot_size = 2048

abbrev pub bp_max_size : ℕ
bp_max_size = 7500

-- `buffer_pool`
pub record BufferPool : Type 0 where
  pub bufferpool : List Slot
  pub freelist : List Link
  pub flhead : Link
  pub flcount : ℤ
  pub size : ℕ

-- A slot after memset.
unfoldable pub zero_slot : Slot
zero_slot = replicate bp_slot_size 0

-- `for (; i < end; freelist[i] = i + 1, i++)`, for `k` rounds.
unfoldable pub thread_links : List Link → ℕ → ℕ → List Link
thread_links fl i zero = fl
thread_links fl i (suc k) = thread_links (set fl i (some (i + 1))) (i + 1) k

pub data InitResult : Type 0 where
  fail : ℕ → InitResult
  init : BufferPool → InitResult

-- The pool that `bpinit` leaves.
unfoldable pub new_pool : BufferPool
new_pool = record {
  bufferpool = replicate bp_slot_num zero_slot;
  freelist =
      set (thread_links (replicate bp_slot_num (some 0)) 0 bp_slot_num) (bp_slot_num - 1) none;
  flhead = some 0;
  flcount = pos 0;
  size = bp_slot_num;
}

-- The arguments stand for what malloc and the three pthread calls return.
unfoldable pub bpinit : Bool → ℕ → ℕ → ℕ → InitResult
bpinit mem attr_err mutex_err cond_err =
    if mem
    then (if ltb 0 attr_err
        then fail attr_err
        else if ltb 0 mutex_err
        then fail mutex_err
        else if ltb 0 cond_err
        then fail cond_err
        else init new_pool)
    else fail 1

-- What `bpenlarge` makes of a pool that may grow. `stale` is what realloc leaves in the new entries.
unfoldable pub larger : Link → BufferPool → BufferPool
larger stale bp = record bp {
  bufferpool = bp.bufferpool ++ replicate bp_slot_num zero_slot;
  freelist =
      set (thread_links (bp.freelist ++ replicate bp_slot_num stale) bp.size bp_slot_num)
        (bp.size + bp_slot_num - 1) none;
  flhead = some bp.size;
  size = bp.size + bp_slot_num;
}

-- `none` if the pool has its maximum size. The code does not test what its two calls of realloc
-- return: they are taken to succeed.
unfoldable pub bpenlarge : Link → BufferPool → Option BufferPool
bpenlarge stale bp = if leb bp_max_size bp.size then none else some (larger stale bp)

-- Where a call of `bpget` stands: it returned a slot, or it waits in pthread_cond_wait, and goes
-- round its loop again when it is woken.
pub data Got : Type 0 where
  slot : ℕ → BufferPool → Got
  waiting : BufferPool → Got

-- What follows the loop.
unfoldable pub take_head : BufferPool → ℕ → Got
take_head bp offset =
    slot offset
      (record bp { flhead = get_or bp.freelist offset none; flcount = bp.flcount +ℤ pos 1 })

-- The loop of `bpget` up to its return or its wait, on fuel.
unfoldable pub bpget_loop : Link → ℕ → BufferPool → Option Got
unfolding take_head bpenlarge
bpget_loop stale zero bp = none
bpget_loop stale (suc fuel) bp = elim bp.flhead [
  | some offset ↦ some (take_head bp offset)
  | none ↦ elim (bpenlarge stale bp) [
    | none ↦ some (waiting bp)
    | some larger ↦ bpget_loop stale fuel larger
  ]
]

unfoldable pub bpget : Link → BufferPool → Option Got
unfolding bpget_loop
bpget stale bp = bpget_loop stale 2 bp

-- The free-list part of `bpfree`, `bprmv` and `rtp_rm_all_pkts`.
unfoldable pub give_back : BufferPool → ℕ → BufferPool
give_back bp index = record bp {
  freelist = set bp.freelist index bp.flhead;
  flhead = some index;
  flcount = bp.flcount -ℤ pos 1;
}

unfoldable pub bpfree : BufferPool → ℕ → BufferPool
unfolding give_back
bpfree bp index = record (give_back bp index) { bufferpool = set bp.bufferpool index zero_slot }

unfoldable pub bpkill : BufferPool → BufferPool
bpkill bp = record bp { bufferpool = [] }
