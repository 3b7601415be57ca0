-- ===== src/Rtp/Recv/Held.antt =====
-- What rtp_recv does with the slot it takes where the packet goes to no source.
use libnemesi.Common.{
  ℕ, ◌<◌, ◌≡◌, refl, sym, ◌∙◌, ◌⊎◌, inl, inr, true, none, some, List, [], ◌∷◌, ◌++◌, length, get_or,
  drop, length-set, get_or-set_ne, get_or-set_self, All, All-right, Fresh, Distinct-right,
}
use libnemesi.Packet.{Slot}
use libnemesi.Bufferpool.{Link, BufferPool, bpfree, bp_max_size, zero_slot, give_back}
use libnemesi.Bufferpool.FreeList.{IsPool}
use libnemesi.Bufferpool.Get.{SameSlots, bpget-Taken}
use libnemesi.Bufferpool.Free.{bpfree-IsPool}
use libnemesi.Utils.Address.{NmsSockaddr}
use libnemesi.Rtp.Header.{rtp_hdr_val_chk}
use libnemesi.Rtp.Source.{TimeVal}
use libnemesi.Rtp.Lookup.{Given}
use libnemesi.Rtp.State.{RtpSession}
use libnemesi.Rtp.Recv.{Doubles}
use libnemesi.Rtp.Recv.Datagram.{returned, blocked, fill, on_slot, on_packet, rtp_recv}

-- The packets in the slots `used` are the same in both pools.
abbrev pub SamePackets : List ℕ → BufferPool → BufferPool → Type 0
SamePackets used bp bp' = All (λ i. get_or bp'.bufferpool i [] ≡ get_or bp.bufferpool i []) used

pub fill-IsPool :
    (p : Slot) (bp : BufferPool) (x : ℕ) (free used : List ℕ)
    → IsPool bp free used
    → IsPool (fill p bp x) free used
unfolding fill
fill-IsPool p bp x free used v = record {
  chain = v.chain;
  distinct = v.distinct;
  in_range = v.in_range;
  complete = v.complete;
  count = v.count;
  links = v.links;
  slots = length-set bp.bufferpool x (p ++ drop (length p) (get_or bp.bufferpool x [])) ∙ v.slots;
  whole = v.whole;
  bounded = v.bounded;
}

filled :
    (p : Slot) (bp : BufferPool) (x : ℕ)
    → x < length bp.bufferpool
    → get_or (fill p bp x).bufferpool x [] ≡ p ++ drop (length p) (get_or bp.bufferpool x [])
unfolding fill
filled p bp x h =
    get_or-set_self bp.bufferpool x (p ++ drop (length p) (get_or bp.bufferpool x [])) [] h

first_lt :
    (bp : BufferPool) (x : ℕ) (free used : List ℕ)
    → IsPool bp free (x ∷ used)
    → x < length bp.bufferpool
first_lt bp x free used v = rw v.slots (All-right (λ i. i < bp.size) free (x ∷ used) v.in_range).0

kept :
    (p : Slot) (bp bp' : BufferPool) (x : ℕ) (used : List ℕ)
    → SameSlots bp.size bp bp'
    → Fresh x used
    → All (λ i. i < bp.size) used
    → SamePackets used bp (bpfree (fill p bp' x) x)
unfolding bpfree give_back fill
kept p bp bp' x [] same f h = tt
kept p bp bp' x (i ∷ used) same f h = (
  get_or-set_ne (fill p bp' x).bufferpool x i zero_slot [] (λ e. f.0 (sym e))
      ∙ get_or-set_ne bp'.bufferpool x i (p ++ drop (length p) (get_or bp'.bufferpool x [])) []
          (λ e. f.0 (sym e))
      ∙ same i h.0,
  kept p bp bp' x used same f.1 h.1,
)

module _ {F : Type 0} (o : Doubles F) (before : Slot) (stale : Link) (g : Given)
    (now : TimeVal) where
  -- recvfrom fails on a session whose pool is valid with the slots `used` held: rtp_recv waits, where
  -- every slot of a pool of maximum size is held, or it returns 1, the session is as it was but for
  -- the pool, and in the pool, which is valid, one more slot is held.
  pub rtp_recv-failed :
      (s : RtpSession F) (free used : List ℕ)
      → IsPool s.bp free used
      → ((length used ≡ bp_max_size) × (rtp_recv o before stale g now none s ≡ blocked))
        ⊎ ((x : ℕ) × (bp' : BufferPool) × (free' : List ℕ) × (rtp_recv o before stale g now none s
              ≡ returned 1 (record s { bp = bp' }))
            × IsPool bp' free' (x ∷ used))
  unfolding rtp_recv on_slot
  rtp_recv-failed s free used v = elim (bpget-Taken stale s.bp free used v) [
    | inl (x, bp', free', e, v', same) ↦ inr (x, bp', free', rw e refl, v')
    | inr (n, e) ↦ inl (n, rw e refl)
  ]

  -- A datagram `p` comes to a session whose pool is valid with the slots `used` held, and the header's
  -- check refuses it, whatever bytes follow it in its slot; a pool that has to grow gets its memory.
  -- Then rtp_recv waits, where every slot of a pool of maximum size is held, or it returns 0, and the
  -- session is as it was but for the pool. The pool is valid, the same slots are held, and the packets
  -- in them are the same.
  pub rtp_recv-refused :
      (s : RtpSession F) (free used : List ℕ) (p : Slot) (server : NmsSockaddr)
      → IsPool s.bp free used
      → ((old : Slot) → rtp_hdr_val_chk (p ++ drop (length p) old) (length p) ≡ true)
      → ((length used ≡ bp_max_size)
          × (rtp_recv o before stale g now (some (p, server)) s ≡ blocked))
        ⊎ ((bp' : BufferPool) × (free' : List ℕ) × (rtp_recv o before stale g now
                (some (p, server))
                s
              ≡ returned 0 (record s { bp = bp' }))
            × IsPool bp' free' used
            × SamePackets used s.bp bp')
  unfolding rtp_recv on_slot on_packet
  rtp_recv-refused s free used p server v c = elim (bpget-Taken stale s.bp free used v) [
    | inl (x, bp', free', e, v', same) ↦
        let f =
          bpfree-IsPool (fill p bp' x) free' [] x used (fill-IsPool p bp' x free' (x ∷ used) v') in
        inr (
          bpfree (fill p bp' x) x,
          x ∷ free',
          rw (e, filled p bp' x (first_lt bp' x free' used v'), c (get_or bp'.bufferpool x []))
              refl,
          f.0,
          kept p s.bp bp' x used same (Distinct-right free' (x ∷ used) v'.distinct).0
              (All-right (λ i. i < s.bp.size) free used v.in_range),
        )
    | inr (n, e) ↦ inl (n, rw e refl)
  ]
