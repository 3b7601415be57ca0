-- ===== src/Rtp/Receive/Examples.antt =====
-- The theorem on a received packet, at a pool with one slot held and an empty playout buffer.
use libnemesi.Common.{◌≡◌, refl, ◌⊎◌, some, none, [], ◌∷◌, replicate, length-replicate}
use libnemesi.Common.Int.{pos}
use libnemesi.Bufferpool.FreeList.{range}
use libnemesi.Bufferpool.Get.{one_held, one_held-IsPool}
use libnemesi.Playout.{PlayoutBuff, zero_item}
use libnemesi.Playout.Joint.{IsJoint}
use libnemesi.Rtp.Buffer.{Buffers}
use libnemesi.Rtp.Receive.{store_packet}
use libnemesi.Rtp.Receive.Store.{IsDropped, IsStored, store_packet_lem}

abbrev no_packets : PlayoutBuff
no_packets = record {
  pobuff = replicate 7500 zero_item;
  pocount = pos 0;
  pohead = none;
  potail = none;
  cycles = 0;
}

abbrev buffers : Buffers
buffers = record { bp = one_held; po = no_packets }

buffers-IsJoint : IsJoint one_held no_packets (range 1 149) (0 ∷ []) []
buffers-IsJoint = record {
  pool = one_held-IsPool;
  playout = record { chain = (refl, refl); distinct = tt; in_range = tt; count = refl };
  room = length-replicate 7500 zero_item;
}

store_packet_example :
    (b' : Buffers) × (store_packet [] buffers 0 0 100 ≡ some b')
    × (IsDropped [] buffers (range 1 149) [] [] 0 0 100 b'
        ⊎ IsStored [] buffers (range 1 149) [] [] 0 0 100 b')
store_packet_example = store_packet_lem [] buffers (range 1 149) [] [] 0 0 100 buffers-IsJoint
