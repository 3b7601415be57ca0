-- ===== src/Playout/Samples.antt =====
-- A playout buffer that holds one packet, over a pool in which its slot is the only one held.
use libnemesi.Common.{suc, refl, some, none, [], ◌∷◌, replicate, length-replicate, arith, ap}
use libnemesi.Common.Int.{pos}
use libnemesi.Bufferpool.FreeList.{range}
use libnemesi.Bufferpool.Get.{one_held, one_held-IsPool}
use libnemesi.Playout.{zero_item, PlayoutBuff}
use libnemesi.Playout.Joint.{IsJoint}

-- Slot 0 in a buffer of full size over the pool of which it is held.
abbrev pub one : PlayoutBuff
one = record {
  pobuff = record { pktlen = 4; prev = none; next = none } ∷ replicate 7499 zero_item;
  pocount = pos 1;
  pohead = some 0;
  potail = some 0;
  cycles = 0;
}

pub one-IsJoint : IsJoint one_held one (range 1 149) [] (0 ∷ [])
one-IsJoint = record {
  pool = one_held-IsPool;
  playout = record {
    chain = (refl, refl, (refl, refl));
    distinct = omega arith;
    in_range = (omega arith);
    count = refl;
  };
  room = ap suc (length-replicate 7499 zero_item);
}
