-- ===== src/Rtp/Receive.antt =====
-- The last part of rtp_recv, src/rtp/rtp_recv.c: what becomes of a packet once its source is known.
pub mod Store
mod Examples
use libnemesi.Common.{
  ℕ, zero, suc, ◌<◌, ◌≡◌, ◌≢◌, refl, sym, ap, ◌∙◌, subst, ◌⊎◌, inl, inr, Option, none, some, List,
  [], ◌∷◌, ◌++◌, arith, length, get_or, set, length-set, length-append, All, All-left, All-right,
  All-insert, All-remove, Fresh, Distinct, Distinct-right, Distinct-insert, Distinct-remove,
  Fresh-middle, get_or-set_self,
}
use libnemesi.Common.Int.{pos}
use mathlib.Core.List.{append_assoc}
use libnemesi.Packet.{Slot}
use libnemesi.Bufferpool.{Link, BufferPool, bpfree, bp_max_size}
use libnemesi.Bufferpool.FreeList.{IsPool}
use libnemesi.Bufferpool.Free.{bpfree-IsPool}
use libnemesi.Playout.{
  PoItem, PlayoutBuff, zero_item, item, AddResult, added, stuck, AddCode, in_order, duplicated,
  misordered, key, poadd,
}
use libnemesi.Playout.Segment.{Seg}
use libnemesi.Playout.Unlink.{IsPlayout}
use libnemesi.Playout.Locate.{locate, locate-append}
use libnemesi.Playout.Add.{code_of, Inserted, poadd-Outcome}
use libnemesi.Playout.Joint.{IsJoint}
use libnemesi.Rtp.Buffer.{Buffers}

abbrev pub set_len : List PoItem → ℕ → ℕ → List PoItem
set_len a i n = set a i (record (item a i) { pktlen = n })

-- What follows poadd: a duplicate is given back to the pool, and any other packet has its length
-- set. `none` is a poadd that does not return.
unfoldable pub after_add : Buffers → ℕ → ℕ → AddResult → Option Buffers
after_add b slot n stuck = none
after_add b slot n (added duplicated po) = some (record { bp = bpfree b.bp slot; po = po })
after_add b slot n (added in_order po) =
    some (record { bp = b.bp; po = record po { pobuff = set_len po.pobuff slot n } })
after_add b slot n (added misordered po) =
    some (record { bp = b.bp; po = record po { pobuff = set_len po.pobuff slot n } })

-- The packet of `n` bytes in `slot`, for a source with that pool and playout buffer, and with
-- `cycles` in its statistics. `before` is the memory in front of the pool.
unfoldable pub store_packet : Slot → Buffers → ℕ → ℕ → ℕ → Option Buffers
unfolding after_add
store_packet before b slot cycles n =
    after_add b slot n (poadd before b.bp.bufferpool b.po slot cycles)
