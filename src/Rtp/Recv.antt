-- ===== src/Rtp/Recv.antt =====
-- What a received RTP packet does to the statistics of its source: the branches SSRC_KNOWN, SSRC_NEW
-- and SSRC_RTPNEW of rtp_recv in src/rtp/rtp_recv.c, less the counts of senders and members, with
-- rtp_update_fps of src/rtp/rtp_buffer.c. What follows them is in Rtp/Receive.
pub mod Seek
pub mod Datagram
pub mod Held
mod Examples
use libnemesi.Common.{
  ℕ, ◌+◌, ◌-◌, ◌%◌, ◌^◌, Bool, true, false, Option, none, some, List, [], ◌∷◌, ◌++◌, ltb, leb, ◌==◌,
  if◌then◌else◌, length, get_or, set, drop,
}
use libnemesi.Packet.{Slot, seq, time, ssrc, pt}
use libnemesi.Bufferpool.{Link, BufferPool, Got, slot, waiting, bpget, bpfree}
use libnemesi.Playout.{PlayoutBuff, bprmv}
use libnemesi.Utils.Address.{NmsSockaddr}
use libnemesi.Rtp.Header.{rtp_hdr_val_chk}
use libnemesi.Rtp.Source.{TimeVal, Stats, rtp_seq_mod, min_sequential, u32, rtp_update_seq}
use libnemesi.Rtp.Source.Active.{enqueue}
use libnemesi.Rtp.Buffer.{Buffers}
use libnemesi.Rtp.Lookup.{Given, Session, Source, rtp, zero_po}
use libnemesi.Rtp.Lookup.Check.{
  Code, ssrc_known, ssrc_new, ssrc_rtpnew, ssrc_rtcpnew, ssrc_collision, fatal, Checked, no_source,
  rtp_ssrc_check,
}
use libnemesi.Rtp.State.{Member, PtDef, RtpSession, looked_up, member_at, put_member}
use libnemesi.Rtp.Receive.{store_packet}

-- The arithmetic on doubles: `(uint32_t) (now * rate)`, the new jitter for a difference of transit
-- times, and the quotient of two numbers; and the double 0.
pub record Doubles (F : Type 0) : Type 0 where
  pub zero : F
  pub ticks : TimeVal → ℕ → ℕ
  pub smooth : ℕ → F → F
  pub ratio : ℕ → ℕ → F

abbrev pub def_clk_rate : ℕ
def_clk_rate = 8000

unfoldable pub rate_of : Option PtDef → ℕ
rate_of none = def_clk_rate
rate_of (some d) = if d.rate == 0 then def_clk_rate else d.rate

-- `abs` of the difference of two numbers as an int of 32 bits; the one int without an opposite gives
-- 2 ^ 31.
unfoldable pub abs_diff : ℕ → ℕ → ℕ
abs_diff a b = let d = (a % u32 + u32 - b % u32) % u32 in if leb (2 ^ 31) d then u32 - d else d

-- What the packet does to its source: the source, whether it is put in the queue of active ones, and
-- the payload types and the frames per second; `none` where the packet's type is unknown.
abbrev pub Counted : Type 0 → Type 0
Counted F = Option (Member F × Bool × List (Option PtDef) × F)

module _ {F : Type 0} (o : Doubles F) where
  -- The type's time stamp, and the frames per second.
  unfoldable pub rtp_update_fps : List (Option PtDef) → F → ℕ → ℕ → Option (List (Option PtDef) × F)
  unfolding abs_diff
  rtp_update_fps ptdefs fps timestamp type = elim (get_or ptdefs type none) [
    | none ↦ none
    | some d ↦ some (
        if timestamp == d.prev_timestamp then (ptdefs, fps) else (
          set ptdefs type (some (record d { prev_timestamp = timestamp })),
          o.ratio d.rate (abs_diff timestamp d.prev_timestamp),
        ))
  ]

  unfoldable pub transit_of : TimeVal → Slot → List (Option PtDef) → ℕ
  unfolding rate_of
  transit_of now p ptdefs =
      (o.ticks now (rate_of (get_or ptdefs (pt p) none)) % u32 + u32 - time p) % u32

  -- "Seek reset": the statistics start again at the packet.
  unfoldable pub seek_reset : TimeVal → Slot → Stats F → Stats F
  seek_reset now p s = record s {
    probation = 0;
    max_seq = seq p;
    firstts = time p;
    lastts = time p;
    firsttv = now;
    jitter = o.zero;
    base_seq = (seq p + u32 - 1) % u32;
    bad_seq = rtp_seq_mod + 1;
    cycles = 0;
    received = 0;
    received_prior = 0;
    expected_prior = 1;
  }

  -- SSRC_KNOWN: the transit time and the jitter come last.
  unfoldable pub timed : TimeVal → Slot → List (Option PtDef) → Bool → Stats F → Member F → Member F
  unfolding transit_of abs_diff
  timed now p ptdefs seek s m =
      let transit = transit_of now p ptdefs in
      if seek
      then record m { ssrc_stats = record s { transit = transit }; done_seek = false }
      else record m {
        ssrc_stats = record s {
          transit = transit;
          jitter = o.smooth (abs_diff transit s.transit) s.jitter;
        };
      }

  unfoldable pub tally :
      TimeVal → Slot → F → Member F → Stats F × Bool → Option (List (Option PtDef) × F) → Counted F
  unfolding timed
  tally _ _ _ _ _ none = none
  tally now p _ m (s, active) (some (ptdefs, fps')) =
      some (timed now p ptdefs m.done_seek s m, active, ptdefs, fps')

  unfoldable pub count_known : TimeVal → Slot → List (Option PtDef) → F → Member F → Counted F
  unfolding seek_reset tally rtp_update_fps rtp_update_seq
  count_known now p ptdefs fps m =
      let s = if m.done_seek then seek_reset now p m.ssrc_stats else m.ssrc_stats in
      tally now p fps m (rtp_update_seq s (seq p)) (rtp_update_fps ptdefs fps (time p) (pt p))

  -- SSRC_NEW and SSRC_RTPNEW
  unfoldable pub count_first : TimeVal → Slot → List (Option PtDef) → F → Member F → Counted F
  unfolding transit_of rtp_update_fps rtp_update_seq
  count_first now p ptdefs fps m =
      let s = record (m.ssrc_stats) {
        probation = min_sequential;
        max_seq = (seq p + rtp_seq_mod - 1) % rtp_seq_mod;
        transit = transit_of now p ptdefs;
        jitter = o.zero;
        firstts = time p;
        lastts = time p;
        firsttv = now;
      } in
      let (s', active) = rtp_update_seq s (seq p) in
      elim (rtp_update_fps ptdefs fps (time p) (pt p)) [
        | none ↦ none
        | some (ptdefs', fps') ↦ some (record m { ssrc_stats = s' }, active, ptdefs', fps')
      ]
