-- ===== src/Playout/Joint.antt =====
-- A pool and a playout buffer over it: bprmv.c.
use libnemesi.Common.{ℕ, ◌≡◌, ◌≢◌, List, [], ◌∷◌, ◌++◌, length, get_or, ◌∙◌}
use mathlib.Core.List.{append_assoc}
use libnemesi.Bufferpool.{BufferPool, bp_max_size, zero_slot, give_back}
use libnemesi.Bufferpool.FreeList.{IsPool}
use libnemesi.Bufferpool.Free.{bpfree-IsPool, give_back-IsPool}
use libnemesi.Playout.{PlayoutBuff, podel, bprmv}
use libnemesi.Playout.Unlink.{IsPlayout, podel-IsPlayout, length-podel}

-- The slots of the pool are the free ones, those of this playout buffer, `xs`, and those that
-- others hold. The playout buffer has an entry for each slot that the pool may come to have.
pub record IsJoint (bp : BufferPool) (po : PlayoutBuff) (free held xs : List ℕ) : Type 0 where
  pub pool : IsPool bp free (held ++ xs)
  pub playout : IsPlayout po xs
  pub room : length po.pobuff ≡ bp_max_size

-- Taking a packet out of the playout buffer and giving its slot back, without clearing it.
pub release-IsJoint :
    (bp : BufferPool) (po : PlayoutBuff) (free held xs : List ℕ) (y : ℕ) (ys : List ℕ)
    → IsJoint bp po free held (xs ++ y ∷ ys)
    → IsJoint (give_back bp y) (podel po y) (y ∷ free) held (xs ++ ys)
release-IsJoint bp po free held xs y ys v = record {
  pool =
      rw (append_assoc held xs ys) at
        (give_back-IsPool bp free (held ++ xs) y ys (rw (append_assoc held xs (y ∷ ys)) v.pool));
  playout = podel-IsPlayout po xs y ys v.playout;
  room = length-podel po y ∙ v.room;
}

-- bprmv takes exactly the given packet out of the playout buffer and makes its slot the first free
-- one. Pool and playout buffer are valid again, the slots that others hold are untouched, no other
-- packet in the pool changes, and the given one is cleared.
pub bprmv-IsJoint :
    (bp : BufferPool) (po : PlayoutBuff) (free held xs : List ℕ) (y : ℕ) (ys : List ℕ)
    → IsJoint bp po free held (xs ++ y ∷ ys)
    → let (bp', po') = bprmv bp po y in
      IsJoint bp' po' (y ∷ free) held (xs ++ ys)
      × ((i : ℕ) → y ≢ i → get_or bp'.bufferpool i [] ≡ get_or bp.bufferpool i [])
      × (get_or bp'.bufferpool y [] ≡ zero_slot)
unfolding bprmv
bprmv-IsJoint bp po free held xs y ys v =
    let (p, same, zero) =
      bpfree-IsPool bp free (held ++ xs) y ys (rw (append_assoc held xs (y ∷ ys)) v.pool) in
    (
      record {
        pool = rw (append_assoc held xs ys) at p;
        playout = podel-IsPlayout po xs y ys v.playout;
        room = length-podel po y ∙ v.room;
      },
      same,
      zero,
    )
