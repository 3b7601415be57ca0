-- ===== src/Rtp/Source/Sequence.antt =====
-- What rtp_update_seq does to the statistics of a source.
use libnemesi.Common.{ℕ, ◌+◌, ◌-◌, ◌%◌, ◌<◌, ◌≤◌, ◌≡◌, ◌≢◌, ◌⊎◌, true, false, arith}
use libnemesi.Rtp.Source.{
  Stats, u32, rtp_seq_mod, max_dropout, max_misorder, min_sequential, init_stats, udelta,
  rtp_update_seq,
}

module _ {F : Type 0} where
  -- The fields hold values of their C types.
  pub record InRange (s : Stats F) : Type 0 where
    pub max_seq : s.max_seq < rtp_seq_mod
    pub cycles : s.cycles < u32
    pub whole_cycles : s.cycles % rtp_seq_mod ≡ 0
    pub base_seq : s.base_seq < u32
    pub received : s.received < u32
    pub probation : s.probation ≤ min_sequential

  -- rtp_update_seq keeps every field in the range of its type, `cycles` a multiple of 2^16, and the
  -- probation counter at most MIN_SEQUENTIAL.
  pub rtp_update_seq-InRange :
      (s : Stats F) (seq : ℕ) → seq < rtp_seq_mod → InRange s → InRange (rtp_update_seq s seq).0
  unfolding rtp_update_seq init_stats
  rtp_update_seq-InRange s seq h v = ground arith

  -- The extended sequence number, 32 bits as the code computes it.
  abbrev pub extended : Stats F → ℕ
  extended s = (s.cycles + s.max_seq) % u32

  -- For a source off probation, a packet less than MAX_DROPOUT ahead, also across the wrap of the
  -- 16-bit number, moves the extended sequence number ahead by exactly the distance, and is
  -- counted; no field changes but the highest number, the cycles and the packets received, and the
  -- source is not queued again.
  pub rtp_update_seq-ahead :
      (s : Stats F) (seq : ℕ)
      → seq < rtp_seq_mod
      → InRange s
      → s.probation ≡ 0
      → udelta seq s.max_seq < max_dropout
      → let (s', queued) = rtp_update_seq s seq in
        (extended s' ≡ (extended s + udelta seq s.max_seq) % u32)
        × (s'.max_seq ≡ seq)
        × (s'.received ≡ (s.received + 1) % u32)
        × (s'.base_seq ≡ s.base_seq)
        × (s' ≡ record s { max_seq = seq; cycles = s'.cycles; received = (s.received + 1) % u32 })
        × (queued ≡ false)
  unfolding rtp_update_seq
  rtp_update_seq-ahead s seq h v p d = ground arith

  -- A source leaves probation, and is put in the queue of active sources, exactly when its packet
  -- has the number after the highest one and only one more was wanted. Its counts then start anew
  -- from this packet. Any other packet on probation makes its number the highest one and leaves the
  -- packet counts alone: the number after the highest one lowers the probation counter, and any
  -- other sets it to MIN_SEQUENTIAL - 1.
  pub rtp_update_seq-probation :
      (s : Stats F) (seq : ℕ)
      → seq < rtp_seq_mod
      → InRange s
      → 0 < s.probation
      → let (s', queued) = rtp_update_seq s seq in
        (s'.max_seq ≡ seq)
        × (((queued ≡ true)
              × (seq ≡ s.max_seq + 1)
              × (s.probation ≡ 1)
              × (s'.probation ≡ 0)
              × (s'.received ≡ 1)
              × (s'.cycles ≡ 0)
              × ((s'.base_seq + 1) % u32 ≡ seq))
            ⊎ ((queued ≡ false)
                × (seq ≡ s.max_seq + 1)
                × (s'.probation + 1 ≡ s.probation)
                × (0 < s'.probation)
                × (s'.received ≡ s.received)
                × (s'.cycles ≡ s.cycles))
            ⊎ ((queued ≡ false)
                × (seq ≢ s.max_seq + 1)
                × (s'.probation ≡ 1)
                × (s'.received ≡ s.received)
                × (s'.cycles ≡ s.cycles)))
  unfolding rtp_update_seq init_stats
  rtp_update_seq-probation s seq h v p = ground arith

  -- A jump is no more than remembered. When the packet that follows it comes, which is a jump too,
  -- the source starts anew from that packet and is put in the queue of active sources.
  pub rtp_update_seq-restart :
      (s : Stats F) (seq : ℕ)
      → seq < rtp_seq_mod
      → s.probation ≡ 0
      → seq ≢ s.bad_seq
      → max_dropout ≤ udelta seq s.max_seq
      → udelta seq s.max_seq ≤ rtp_seq_mod - max_misorder
      → max_dropout ≤ udelta ((seq + 1) % rtp_seq_mod) s.max_seq
      → udelta ((seq + 1) % rtp_seq_mod) s.max_seq ≤ rtp_seq_mod - max_misorder
      → let (s1, queued1) = rtp_update_seq s seq in
        let (s2, queued2) = rtp_update_seq s1 ((seq + 1) % rtp_seq_mod) in
        (s1 ≡ record s { bad_seq = (seq + 1) % rtp_seq_mod })
        × (queued1 ≡ false)
        × (queued2 ≡ true)
        × (s2.max_seq ≡ (seq + 1) % rtp_seq_mod)
        × (s2.received ≡ 1)
        × (s2.cycles ≡ 0)
  unfolding rtp_update_seq init_stats
  rtp_update_seq-restart s seq h p ne lo hi lo' hi' = ground arith
