-- ===== src/Rtp/Source.antt =====
-- The sources of an RTP session (`rtp_ssrc` of src/nemesi/rtp.h) and the sequence number algorithm
-- of src/rtp/rtp_recv.c: rtp_init_seq and rtp_update_seq.
-- Sources stand in a store, and a pointer to one is its place there. `F` is the type of C's doubles.
pub mod Sequence
pub mod Active
mod Examples
use libnemesi.Common.{
  ℕ, zero, suc, ◌+◌, ◌-◌, ◌%◌, ◌^◌, Bool, true, false, Option, none, some, List, [], ltb, leb, ◌==◌,
  if◌then◌else◌, get_or, set,
}
use libnemesi.Common.Int.{ℤ}
use libnemesi.Bufferpool.{Link}

abbrev pub rtp_seq_mod : ℕ
rtp_seq_mod = 65536

abbrev pub min_sequential : ℕ
min_sequential = 2

abbrev pub max_dropout : ℕ
max_dropout = 3000

abbrev pub max_misorder : ℕ
max_misorder = 100

abbrev pub u32 : ℕ
u32 = 2 ^ 32

-- `struct timeval`
pub record TimeVal : Type 0 where
  pub sec : ℤ
  pub usec : ℤ

-- `struct rtp_ssrc_stats`, less `lastrtp`, which no function sets
pub record Stats (F : Type 0) : Type 0 where
  pub max_seq : ℕ
  pub cycles : ℕ
  pub base_seq : ℕ
  pub bad_seq : ℕ
  pub probation : ℕ
  pub received : ℕ
  pub expected_prior : ℕ
  pub received_prior : ℕ
  pub transit : ℕ
  pub jitter : F
  pub lastsr : TimeVal
  pub ntplastsr : ℕ × ℕ
  pub firstts : ℕ
  pub lastts : ℕ
  pub firsttv : TimeVal

-- What rtp_init_seq sets in the statistics.
unfoldable pub init_stats : {F : Type 0} → Stats F → ℕ → Stats F
init_stats s seq = record s {
  base_seq = (seq + u32 - 1) % u32;
  max_seq = seq;
  bad_seq = rtp_seq_mod + 1;
  cycles = 0;
  received = 0;
  received_prior = 0;
  expected_prior = 1;
}

-- `(uint16_t)(seq - max_seq)`
unfoldable pub udelta : ℕ → ℕ → ℕ
udelta seq max_seq = (seq + rtp_seq_mod - max_seq) % rtp_seq_mod

-- The statistics after a call of rtp_update_seq, and whether it put the source in the queue of
-- active ones (by rtp_init_seq).
abbrev pub Updated : Type 0 → Type 0
Updated F = Stats F × Bool

unfoldable pub count_one : {F : Type 0} → Stats F → Stats F
count_one s = record s { received = (s.received + 1) % u32 }

-- While the source is on probation.
unfoldable pub update_probation : {F : Type 0} → Stats F → ℕ → Updated F
unfolding init_stats count_one
update_probation s seq =
    if seq == s.max_seq + 1
    then (if s.probation - 1 == 0
        then (count_one (init_stats (record s { probation = 0; max_seq = seq }) seq), true)
        else (record s { probation = s.probation - 1; max_seq = seq }, false))
    else (record s { probation = min_sequential - 1; max_seq = seq }, false)

-- A sequence number a little ahead.
unfoldable pub update_ahead : {F : Type 0} → Stats F → ℕ → Updated F
unfolding count_one
update_ahead s seq = (
  count_one (record s {
    cycles = if ltb seq s.max_seq then (s.cycles + rtp_seq_mod) % u32 else s.cycles;
    max_seq = seq;
  }),
  false,
)

-- A very large jump: believed when a second packet follows the first.
unfoldable pub update_jump : {F : Type 0} → Stats F → ℕ → Updated F
unfolding init_stats count_one
update_jump s seq =
    if seq == s.bad_seq
    then (count_one (init_stats s seq), true)
    else (record s { bad_seq = (seq + 1) % rtp_seq_mod }, false)

unfoldable pub rtp_update_seq : {F : Type 0} → Stats F → ℕ → Updated F
unfolding udelta update_probation update_ahead update_jump count_one
rtp_update_seq s seq =
    if ltb 0 s.probation
    then update_probation s seq
    else if ltb (udelta seq s.max_seq) max_dropout
    then update_ahead s seq
    else if leb (udelta seq s.max_seq) (rtp_seq_mod - max_misorder)
    then update_jump s seq
    else (count_one s, false)
