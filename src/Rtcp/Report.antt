-- ===== src/Rtcp/Report.antt =====
-- The receiver report, src/rtcp/rtcp_report.c: rtcp_build_rr and rtcp_parse_sr. The blocks are given
-- with their fields in host order, except `lost`, whose bytes the code swaps by itself.
pub mod Blocks
mod Examples
use libnemesi.Common.{
  ℕ, suc, ◌+◌, ◌-◌, ◌*◌, ◌/◌, ◌%◌, ◌^◌, Bool, true, false, ◌&&◌, ◌||◌, not, List, [], ◌∷◌, ltb, leb,
  ◌==◌, if◌then◌else◌, length,
}
use libnemesi.Common.Int.{ℤ, pos, negsuc, pos_part, neg_part, ltb_ℤ}
use libnemesi.Rtp.Source.{Stats, TimeVal, u32}
use libnemesi.Utils.Timeval.{nms_timeval_subtract, eqb_ℤ}

abbrev pub max_pkt_size : ℕ
max_pkt_size = 548

-- `rtcp_rr_t`
pub record RtcpRr : Type 0 where
  pub ssrc : ℕ
  pub fraction : ℕ
  pub lost : ℕ
  pub last_seq : ℕ
  pub jitter : ℕ
  pub last_sr : ℕ
  pub dlsr : ℕ

-- What the report needs of a source.
pub record Reported (F : Type 0) : Type 0 where
  pub ssrc : ℕ
  pub ssrc_stats : Stats F

abbrev pub sub_u32 : ℕ → ℕ → ℕ
sub_u32 a b = (a + u32 - b) % u32

-- `(int32_t) a`
unfoldable pub int32 : ℕ → ℤ
int32 a = if ltb a (2 ^ 31) then pos a else negsuc (2 ^ 32 - 1 - a)

-- The two's complement of an `int32_t`.
unfoldable pub bits32 : ℤ → ℕ
bits32 (pos n) = n
bits32 (negsuc n) = 2 ^ 32 - 1 - n

-- Packets expected since the first one, one too many as `base_seq` is one too low.
unfoldable pub expected : {F : Type 0} → Stats F → ℕ
expected s = (s.cycles + s.max_seq + u32 - s.base_seq + 1) % u32

-- The fraction of packets lost since the last report. `lost_interval <= 0` is a test of an unsigned
-- number.
unfoldable pub fraction_of : ℕ → ℕ → ℕ
fraction_of expected_interval received_interval =
    let lost_interval = sub_u32 expected_interval received_interval in
    if expected_interval == 0 || leb lost_interval 0
    then 0
    else lost_interval * 256 % u32 / expected_interval % 256

abbrev pub min_ℤ : ℤ → ℤ → ℤ
min_ℤ a b = if ltb_ℤ a b then a else b

abbrev pub max_ℤ : ℤ → ℤ → ℤ
max_ℤ a b = if ltb_ℤ a b then b else a

-- The cumulative loss, clamped to 24 bits.
unfoldable pub lost_of : ℕ → ℕ → ℤ
unfolding int32
lost_of expected received =
    max_ℤ (min_ℤ (int32 (sub_u32 (sub_u32 expected received) 1)) (pos 0x7fffff))
      (negsuc (2 ^ 23 - 1))

-- The three low bytes in reverse order.
unfoldable pub swap24 : ℕ → ℕ
swap24 l = l % 256 * 65536 + l / 256 % 256 * 256 + l / 65536 % 256

-- `F` is the type of C's doubles. `to_u32` is the conversion of the jitter, `linear` that of a time
-- to units of 1/65536 s in floating point, and `now` the time of day.
module _ {F : Type 0} (to_u32 : F → ℕ) (linear : TimeVal → ℕ) (now : TimeVal) where
  unfoldable pub block_of : Reported F → RtcpRr
  unfolding expected fraction_of lost_of bits32 swap24
  block_of r =
      let s = r.ssrc_stats in
      let e = expected s in
      record {
        ssrc = r.ssrc;
        fraction = fraction_of (sub_u32 e s.expected_prior) (sub_u32 s.received s.received_prior);
        lost = swap24 (bits32 (lost_of e s.received));
        last_seq = (s.cycles + s.max_seq) % u32;
        jitter = to_u32 s.jitter;
        last_sr = s.ntplastsr.0 % 65536 * 65536 + s.ntplastsr.1 / 65536;
        dlsr =
            if eqb_ℤ s.lastsr.sec (pos 0) then 0 else linear (nms_timeval_subtract now s.lastsr).0;
      }

  -- The source after its report.
  unfoldable pub reported : Reported F → Reported F
  unfolding expected
  reported r =
      let s = r.ssrc_stats in
      record r {
        ssrc_stats = record s { expected_prior = expected s; received_prior = s.received };
      }

  -- The loop over the sources: the blocks written, and the sources afterwards. `len` is
  -- `pkt->common.len`, which the loop does not change.
  unfoldable pub rr_loop : ℕ → List (Reported F) → List RtcpRr × List (Reported F)
  unfolding block_of reported
  rr_loop len [] = ([], [])
  rr_loop len (r ∷ rest) =
      let (blocks, after) = rr_loop len rest in
      if ltb (max_pkt_size - 4 * 6) (len * 4 + 2)
      then ([], r ∷ rest)
      else if not (r.ssrc_stats.received_prior == r.ssrc_stats.received)
      then (block_of r ∷ blocks, reported r ∷ after)
      else (blocks, r ∷ after)

  -- The header's fields, the blocks, and the length returned. `count` is a field of five bits.
  pub record RrPacket : Type 0 where
    pub count : ℕ
    pub len : ℕ
    pub blocks : List RtcpRr
    pub words : ℕ

  unfoldable pub rtcp_build_rr : List (Reported F) → RrPacket × List (Reported F)
  unfolding rr_loop
  rtcp_build_rr sources =
      let (blocks, after) = rr_loop 0 sources in
      let count = length blocks % 32 in
      (record { count = count; len = count * 6 + 1; blocks = blocks; words = count * 6 + 2 }, after)

-- The statistics after a sender report.
unfoldable pub rtcp_parse_sr : {F : Type 0} → TimeVal → ℕ → ℕ → Stats F → Stats F
rtcp_parse_sr now ntp_seq ntp_frac s = record s { lastsr = now; ntplastsr = (ntp_seq, ntp_frac) }
