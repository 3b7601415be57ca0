-- ===== src/Playout.antt =====
-- The playout buffer of src/bufferpool/: poinit.c, poadd.c, podel.c and bprmv.c. It is a doubly linked
-- list over the slots of the pool, newest packet at the head, the next to be played at the tail.
-- A function that updates `*po` returns the new value. Locking is left out: each function holds its
-- mutex from its first access to its last.
pub mod Segment
pub mod Unlink
pub mod Locate
pub mod Insert
pub mod Add
pub mod Order
pub mod Joint
pub mod Stray
pub mod Samples
mod Examples
use libnemesi.Common.{
  ℕ, zero, suc, ◌+◌, ◌-◌, ◌%◌, ◌^◌, Bool, true, false, Option, none, some, List, [], ltb, leb, ◌==◌,
  if◌then◌else◌, get_or, set,
}
use libnemesi.Common.Int.{ℤ, pos, pos_part, ◌+ℤ◌, ◌-ℤ◌}
use libnemesi.Packet.{Slot, seq}
use libnemesi.Bufferpool.{Link, BufferPool, bpfree}

-- `poitem`
pub record PoItem : Type 0 where
  pub pktlen : ℕ
  pub prev : Link
  pub next : Link

abbrev pub zero_item : PoItem
zero_item = record { pktlen = 0; prev = some 0; next = some 0 }

-- `playout_buff`. Its `bufferpool` points at the pool's slots, which are passed beside it.
pub record PlayoutBuff : Type 0 where
  pub pobuff : List PoItem
  pub pocount : ℤ
  pub pohead : Link
  pub potail : Link
  pub cycles : ℕ

-- The numbers are what the three pthread calls return.
unfoldable pub poinit : ℕ → ℕ → ℕ → PlayoutBuff → ℕ × PlayoutBuff
poinit attr_err mutex_err cond_err po =
    let po' = record po { pohead = none; potail = none; cycles = 0; pocount = pos 0 } in
    if ltb 0 attr_err
    then (attr_err, po')
    else if ltb 0 mutex_err
    then (mutex_err, po')
    else if ltb 0 cond_err
    then (cond_err, po')
    else (0, po')

abbrev pub item : List PoItem → ℕ → PoItem
item a i = get_or a i zero_item

abbrev pub set_prev : List PoItem → ℕ → Link → List PoItem
set_prev a i v = set a i (record (item a i) { prev = v })

abbrev pub set_next : List PoItem → ℕ → Link → List PoItem
set_next a i v = set a i (record (item a i) { next = v })

-- Sets `prev` of the element that `next` names to `v`, or `potail` where it is -1.
unfoldable pub relink_prev : PlayoutBuff → Link → Link → PlayoutBuff
relink_prev po none v = record po { potail = v }
relink_prev po (some n) v = record po { pobuff = set_prev po.pobuff n v }

-- Sets `next` of the element that `prev` names to `v`, or `pohead` where it is -1.
unfoldable pub relink_next : PlayoutBuff → Link → Link → PlayoutBuff
relink_next po none v = record po { pohead = v }
relink_next po (some p) v = record po { pobuff = set_next po.pobuff p v }

-- Takes `index` out of the list, without giving its slot back.
unfoldable pub podel : PlayoutBuff → ℕ → PlayoutBuff
unfolding relink_prev relink_next
podel po index =
    let po1 = relink_prev po (item po.pobuff index).next (item po.pobuff index).prev in
    let po2 = relink_next po1 (item po1.pobuff index).prev (item po1.pobuff index).next in
    record po2 { pocount = po2.pocount -ℤ pos 1 }

-- The list part is that of `podel`, the free-list part that of `bpfree`.
unfoldable pub bprmv : BufferPool → PlayoutBuff → ℕ → BufferPool × PlayoutBuff
unfolding podel bpfree
bprmv bp po index = (bpfree bp index, podel po index)

abbrev pub seq_max_jump : ℕ
seq_max_jump = 0xF000

abbrev pub seq_max_number : ℕ
seq_max_number = 0x1000

abbrev pub add32 : ℕ → ℕ → ℕ
add32 a b = (a + b) % 2 ^ 32

abbrev pub sub32 : ℕ → ℕ → ℕ
sub32 a b = (a + 2 ^ 32 - b) % 2 ^ 32

-- `po_get_pkg`. At -1 it reads `before`, the memory in front of the pool.
unfoldable pub po_get_pkg : Slot → List Slot → Link → Slot
po_get_pkg before slots none = before
po_get_pkg before slots (some i) = get_or slots i []

-- `r_cycles` after the loop's body has looked at `i` and at the element behind it.
unfoldable pub next_cycles : Slot → List Slot → ℕ → Link → ℕ → ℕ
unfolding po_get_pkg
next_cycles before slots i next r =
    if leb (seq (po_get_pkg before slots (some i)) + seq_max_jump)
      (seq (po_get_pkg before slots next))
    then sub32 r seq_max_number
    else r

-- The value under which the loop compares the packet in slot `i`.
unfoldable pub key : List Slot → ℕ → ℕ → ℕ
unfolding po_get_pkg
key slots r i = add32 (seq (po_get_pkg [] slots (some i))) r

-- The loop of `poadd`: where it stops, and `r_cycles` there. `none` means that the fuel ran out.
unfoldable pub poadd_loop : Slot → List Slot → List PoItem → ℕ → ℕ → Link → ℕ → Option (Link × ℕ)
unfolding next_cycles key
poadd_loop before slots a cseq zero i r = none
poadd_loop before slots a cseq (suc fuel) none r = some (none, r)
poadd_loop before slots a cseq (suc fuel) (some i) r =
    let rest =
      poadd_loop before slots a cseq fuel (item a i).next
        (next_cycles before slots i (item a i).next r) in
    if ltb cseq (key slots r i) then rest else some (some i, r)

pub data AddCode : Type 0 where
  in_order duplicated misordered : AddCode

-- A call of `poadd`: it returned, or it is stuck, because its loop does not end or because it
-- writes to `pobuff[-1]`.
pub data AddResult : Type 0 where
  added : AddCode → PlayoutBuff → AddResult
  stuck : AddResult

-- `po->pobuff[i].prev = index` where `i` is not -1, or else `potail = index`
unfoldable pub head_link : PlayoutBuff → Link → ℕ → PlayoutBuff
head_link po none index = record po { potail = some index }
head_link po (some i) index = record po { pobuff = set_prev po.pobuff i (some index) }

unfoldable pub head_insert : PlayoutBuff → ℕ → ℕ → Link → PlayoutBuff
unfolding head_link
head_insert po index cycles i =
    let po1 = record po { pobuff = set_next po.pobuff index i; pohead = some index } in
    let po2 = head_link po1 i index in
    record po2 {
      pobuff = set_prev po2.pobuff index none;
      cycles = cycles;
      pocount = po2.pocount +ℤ pos 1;
    }

-- Behind the old tail `i`.
unfoldable pub tail_insert : PlayoutBuff → ℕ → Link → AddResult
tail_insert po index none = stuck
tail_insert po index (some i) =
    let a1 = set_next po.pobuff index (item po.pobuff i).next in
    let a2 = set_next a1 i (some index) in
    added misordered (record po {
      potail = some index;
      pobuff = set_prev a2 index (some i);
      pocount = po.pocount +ℤ pos 1;
    })

-- Between `i` and the element in front of it, which is `p`.
unfoldable pub inner_insert : PlayoutBuff → ℕ → ℕ → Link → AddResult
inner_insert po index i none = stuck
inner_insert po index i (some p) =
    let a1 = set_prev po.pobuff index (some p) in
    let a2 = set_next a1 index (some i) in
    let a3 = set_next a2 p (some index) in
    added misordered
      (record po { pobuff = set_prev a3 i (some index); pocount = po.pocount +ℤ pos 1 })

abbrev pub link_eq : Link → Link → Bool
link_eq none none = true
link_eq none (some j) = false
link_eq (some i) none = false
link_eq (some i) (some j) = i == j

unfoldable pub behind_head : PlayoutBuff → ℕ → Link → AddResult
unfolding tail_insert inner_insert
behind_head po index none = tail_insert po index po.potail
behind_head po index (some i) = inner_insert po index i (item po.pobuff i).prev

-- The test for a duplicate.
unfoldable pub is_duplicate : List Slot → ℕ → Link → ℕ → Bool
unfolding key
is_duplicate slots cseq none r = false
is_duplicate slots cseq (some i) r = key slots r i == cseq

-- What follows the loop, which stopped at `i`.
unfoldable pub place : List Slot → PlayoutBuff → ℕ → ℕ → ℕ → Link → ℕ → AddResult
unfolding is_duplicate head_insert behind_head
place slots po index cycles cseq i r =
    if is_duplicate slots cseq i r
    then added duplicated po
    else if link_eq i po.pohead
    then added in_order (head_insert po index cycles i)
    else behind_head po index i

-- The rest of `poadd`, once its loop has ended.
unfoldable pub after_loop : List Slot → PlayoutBuff → ℕ → ℕ → ℕ → Option (Link × ℕ) → AddResult
unfolding place
after_loop slots po index cycles cseq none = stuck
after_loop slots po index cycles cseq (some (i, r)) = place slots po index cycles cseq i r

-- The loop passes each of the `pocount` elements at most once.
unfoldable pub poadd : Slot → List Slot → PlayoutBuff → ℕ → ℕ → AddResult
unfolding after_loop poadd_loop key
poadd before slots po index cycles =
    let cseq = key slots cycles index in
    after_loop slots po index cycles cseq
      (poadd_loop before slots po.pobuff cseq (suc (pos_part po.pocount)) po.pohead po.cycles)
