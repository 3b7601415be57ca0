-- ===== src/Playout/Examples.antt =====
-- The theorems on the playout buffer at concrete buffers, and runs of its functions.
use libnemesi.Common.{ℕ, ◌≡◌, ◌≢◌, ◌⊎◌, refl, some, none, List, [], ◌∷◌, get_or, arith}
use libnemesi.Common.Int.{pos}
use libnemesi.Packet.{Slot, seq, byte}
use libnemesi.Bufferpool.{zero_slot}
use libnemesi.Bufferpool.FreeList.{range}
use libnemesi.Bufferpool.Get.{one_held}
use libnemesi.Playout.{zero_item, PlayoutBuff, bprmv, poadd, key, po_get_pkg}
use libnemesi.Playout.Unlink.{IsPlayout}
use libnemesi.Playout.Locate.{locate}
use libnemesi.Playout.Add.{Outcome, poadd-Outcome}
use libnemesi.Playout.Order.{Falling, Repeated, Sorted, poadd-Sorted}
use libnemesi.Playout.Samples.{one, one-IsJoint}
use libnemesi.Playout.Joint.{IsJoint, bprmv-IsJoint}

-- A packet with the sequence number `n`, below 256.
abbrev packet : ℕ → Slot
packet n = 128 ∷ 96 ∷ 0 ∷ n ∷ []

-- Packets 5, 9 and 7 in slots 0, 1 and 2.
abbrev slots : List Slot
slots = packet 5 ∷ packet 9 ∷ packet 7 ∷ []

-- Slots 1 and 0, in this order.
abbrev two : PlayoutBuff
two = record {
  pobuff =
      record { pktlen = 4; prev = some 1; next = none }
      ∷ record { pktlen = 4; prev = none; next = some 0 }
      ∷ zero_item
      ∷ [];
  pocount = pos 2;
  pohead = some 1;
  potail = some 0;
  cycles = 0;
}

two-IsPlayout : IsPlayout two (1 ∷ 0 ∷ [])
two-IsPlayout = record {
  chain = (refl, refl, (refl, refl, (refl, refl)));
  distinct = omega arith;
  in_range = omega arith;
  count = refl;
}

poadd-Outcome_example :
    Outcome [] slots two 2 0
      (locate [] slots (key slots 0 2) 0 (1 ∷ 0 ∷ []))
      (poadd [] slots two 2 0)
poadd-Outcome_example =
    poadd-Outcome [] slots two 2 0 (1 ∷ 0 ∷ []) two-IsPlayout (omega arith) (omega arith)

falls : Falling slots (1 ∷ 0 ∷ [])
unfolding po_get_pkg seq byte
falls = omega arith

poadd-Sorted_example :
    Repeated slots two 2 (1 ∷ 0 ∷ []) (poadd [] slots two 2 0)
    ⊎ Sorted slots two 2 (1 ∷ 0 ∷ []) (poadd [] slots two 2 0)
poadd-Sorted_example =
    poadd-Sorted slots two 2 [] (1 ∷ 0 ∷ []) two-IsPlayout falls (omega arith) (omega arith)
      (omega arith)

bprmv-IsJoint_example :
    let (bp', po') = bprmv one_held one 0 in
    IsJoint bp' po' (0 ∷ range 1 149) [] []
    × ((i : ℕ) → 0 ≢ i → get_or bp'.bufferpool i [] ≡ get_or one_held.bufferpool i [])
    × (get_or bp'.bufferpool 0 [] ≡ zero_slot)
bprmv-IsJoint_example = bprmv-IsJoint one_held one (range 1 149) [] [] 0 [] one-IsJoint
