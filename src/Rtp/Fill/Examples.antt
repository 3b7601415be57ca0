-- ===== src/Rtp/Fill/Examples.antt =====
-- The theorem on rtp_fill_buffer at a playout buffer with one packet of MPEG-4 video, whose parser has
-- sent its configuration. For doubles stand natural numbers.
use libnemesi.Common.{ℕ, ◌+◌, drop, get_or, ◌++◌, true, none, some, [], ◌∷◌, replicate}
use libnemesi.Common.Int.{pos}
use libnemesi.Packet.{pt}
use libnemesi.Packet
use libnemesi.Bufferpool.Get.{one_held}
use libnemesi.Playout.{PlayoutBuff, zero_item}
use libnemesi.Rtp.Buffer.{Buffers}
use libnemesi.Rtp.Recv.{Doubles}
use libnemesi.Rtp.Recv.Datagram.{fill}
use libnemesi.Parsers.Fill.{Packet}
use libnemesi.Parsers.Samples.{idle, sample}
use libnemesi.Parsers.M4v.{M4v}
use libnemesi.Rtp.Fill.Call.{Frames}

abbrev naturals : Doubles ℕ
naturals = record { zero = 0; ticks = λ t r. r; smooth = λ d j. d + j; ratio = λ a b. a }

abbrev datagram : Packet
datagram = sample 224 (4 ∷ 5 ∷ [])

-- As it lies in the slot, over the bytes that were there.
abbrev packet : Packet
packet = (datagram.0 ++ drop datagram.1 (get_or one_held.bufferpool 0 []), datagram.1)

abbrev waiting : PlayoutBuff
waiting = record {
  pobuff = record { pktlen = 14; prev = none; next = none } ∷ replicate 7499 zero_item;
  pocount = pos 1;
  pohead = some 0;
  potail = some 0;
  cycles = 0;
}

abbrev buffers : Buffers
buffers = record { bp = fill datagram.0 one_held 0; po = waiting }

abbrev state : M4v
state = record { assembly = idle; conf = 1 ∷ []; configured = true }
