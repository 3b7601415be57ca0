-- ===== src/Rtp/Source/Examples.antt =====
-- The theorem on sequence numbers at a concrete source.
use libnemesi.Common.{ℕ, ◌+◌, ◌%◌, ◌≡◌, refl, false, arith}
use libnemesi.Common.Int.{pos}
use libnemesi.Rtp.Source.{Stats, TimeVal, u32, udelta, rtp_update_seq}
use libnemesi.Rtp.Source.Sequence.{InRange, extended, rtp_update_seq-ahead}

abbrev midnight : TimeVal
midnight = record { sec = pos 0; usec = pos 0 }

-- A source off probation after the packet 65535 of its first cycle.
abbrev steady : Stats ℕ
steady = record {
  max_seq = 65535;
  cycles = 0;
  base_seq = 65000;
  bad_seq = 65537;
  probation = 0;
  received = 535;
  expected_prior = 1;
  received_prior = 0;
  transit = 0;
  jitter = 0;
  lastsr = midnight;
  ntplastsr = (0, 0);
  firstts = 0;
  lastts = 0;
  firsttv = midnight;
}

steady-InRange : InRange steady
steady-InRange = record {
  max_seq = omega arith;
  cycles = omega arith;
  whole_cycles = refl;
  base_seq = omega arith;
  received = omega arith;
  probation = omega arith;
}

-- Packet 3 is four ahead of packet 65535.
rtp_update_seq-ahead_example :
    let (s', queued) = rtp_update_seq steady 3 in
    (extended s' ≡ (extended steady + udelta 3 65535) % u32)
    × (s'.max_seq ≡ 3)
    × (s'.received ≡ (535 + 1) % u32)
    × (s'.base_seq ≡ 65000)
    × (s' ≡ record steady { max_seq = 3; cycles = s'.cycles; received = (535 + 1) % u32 })
    × (queued ≡ false)
unfolding udelta
rtp_update_seq-ahead_example =
    rtp_update_seq-ahead steady 3 (omega arith) steady-InRange refl (omega arith)
