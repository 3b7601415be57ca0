-- ===== src/Rtcp/Receive.antt =====
-- Receiving RTCP, src/rtcp/rtcp_recv.c: rtcp_parse_pkt and rtcp_recv, with the handlers that they
-- call: rtcp_parse_sr, rtcp_parse_sdes, rtcp_parse_bye; rtcp_parse_rr and rtcp_parse_app only log.
pub mod Visit
mod Examples
use libnemesi.Common.{
  ℕ, zero, suc, ◌+◌, ◌*◌, ◌/◌, ◌%◌, ◌^◌, Bool, true, false, Option, none, some, List, [], ◌∷◌, ltb,
  ◌==◌, if◌then◌else◌, length,
}
use libnemesi.Packet.{Slot, word}
use libnemesi.Utils.Address.{NmsSockaddr}
use libnemesi.Rtp.Source.{TimeVal}
use libnemesi.Rtp.Lookup.{Given, Proto, rtcp}
use libnemesi.Rtp.Lookup.Check.{
  Code, ssrc_known, ssrc_new, ssrc_rtpnew, ssrc_rtcpnew, ssrc_collision, fatal, Checked,
  rtp_ssrc_check,
}
use libnemesi.Rtp.State.{Member, RtpSession, looked_up, member_at, put_member}
use libnemesi.Rtcp.Report.{rtcp_parse_sr}
use libnemesi.Rtcp.Packet.{common_pt, sr_pt, rr_pt, sdes_pt, bye_pt, app_pt}
use libnemesi.Rtcp.Check.{following, rtcp_hdr_val_chk}
use libnemesi.Rtcp.Sdes.{Described, done, fault, no_fuel, rtcp_parse_sdes}

-- What rtcp_parse_pkt returns: 0, 1 or -1.
pub data ParseCode : Type 0 where
  parsed unknown minus_one : ParseCode

-- What handling a packet leads to: the loop goes on, or the function returns a code, in each case
-- with the source and the flag `run` of the RTP thread.
pub data Handled (F : Type 0) : Type 0 where
  go_on : Member F → Bool → Handled F
  returns : ParseCode → Member F → Bool → Handled F
  crashed : Handled F
  stuck : Handled F

-- `if (rtcp_parse_sdes(stm_src, pkt)) return -1;`
unfoldable pub after_sdes : {F : Type 0} → Bool → Described F → Handled F
after_sdes run (done zero m) = go_on m run
after_sdes run (done (suc n) m) = returns minus_one m run
after_sdes run fault = crashed
after_sdes run no_fuel = stuck

-- What comes after a packet.
abbrev pub continue : {F : Type 0} → Handled F → (Member F → Bool → Handled F) → Handled F
continue (go_on m run) rest = rest m run
continue (returns code m run) rest = returns code m run
continue crashed rest = crashed
continue stuck rest = stuck

module _ {F : Type 0} (now : TimeVal) (mem : Bool) (p : Slot) where
  -- The switch over the type of the packet at the word `w`.
  unfoldable pub handle : ℕ → Member F → Bool → Handled F
  unfolding after_sdes rtcp_parse_sr
  handle w m run =
      if common_pt p w == sr_pt
      then go_on
          (record m {
            ssrc_stats = rtcp_parse_sr now (word p (4 * w + 8)) (word p (4 * w + 12)) m.ssrc_stats;
          })
          run
      else if common_pt p w == sdes_pt
      then after_sdes run (rtcp_parse_sdes mem p w m)
      else if common_pt p w == rr_pt
      then go_on m run
      else if common_pt p w == bye_pt
      then go_on m false
      else if common_pt p w == app_pt
      then go_on m run
      else returns unknown m run

  unfoldable pub parse_loop : ℕ → ℕ → ℕ → Member F → Bool → Handled F
  unfolding handle
  parse_loop end zero w m run = stuck
  parse_loop end (suc fuel) w m run =
      let rest : Member F → Bool → Handled F =
        λ m' run'. parse_loop end fuel (following p w) m' run' in
      if ltb w end then continue (handle w m run) rest else returns parsed m run

  -- Each packet takes a word at least.
  unfoldable pub rtcp_parse_pkt : ℕ → Member F → Bool → Handled F
  unfolding parse_loop
  rtcp_parse_pkt n m run = parse_loop (n / 4) (suc (n / 4)) 0 m run

-- Where rtcp_recv ends: it returns, or reads through NULL or behind an array, or does not end.
pub data Received (F : Type 0) : Type 0 where
  returned : ParseCode → RtpSession F → Received F
  crashed : Received F
  stuck : Received F

-- `zero` is the double 0, and `average n avg` is `n / 16. + avg * 15. / 16.`
module _ {F : Type 0} (zero : F) (average : ℕ → F → F) where
  unfoldable pub after_parse : RtpSession F → ℕ → ℕ → Handled F → Received F
  after_parse s i n (Handled.go_on m run) = stuck
  after_parse s i n (Handled.returns parsed m run) =
      returned parsed
        (record (put_member s i m) { run = run; avg_rtcp_size = average n s.avg_rtcp_size })
  after_parse s i n (Handled.returns unknown m run) =
      returned unknown (record (put_member s i m) { run = run })
  after_parse s i n (Handled.returns minus_one m run) =
      returned minus_one (record (put_member s i m) { run = run })
  after_parse s i n Handled.crashed = crashed
  after_parse s i n Handled.stuck = stuck

  -- The counts of a new source. They are 32 bits wide.
  unfoldable pub count_new : Code → Slot → RtpSession F → RtpSession F
  count_new ssrc_new p s = record s {
    senders = if common_pt p 0 == sr_pt then (s.senders + 1) % 2 ^ 32 else s.senders;
    member_count = (s.member_count + 1) % 2 ^ 32;
  }
  count_new code p s = s

  -- What follows the lookup. Without a source the handlers read through NULL: all but the two that
  -- only log, which the model does not tell apart.
  unfoldable pub parse_for : TimeVal → Bool → Slot → ℕ → Code → Option ℕ → RtpSession F → Received F
  unfolding count_new after_parse rtcp_parse_pkt member_at
  parse_for now mem p n fatal src s = returned unknown s
  parse_for now mem p n code none s = crashed
  parse_for now mem p n code (some i) s =
      let s' = count_new code p s in
      after_parse s' i n (rtcp_parse_pkt now mem p n (member_at zero s' i) s'.run)

  -- `got` is what recvfrom gives: an error, or the bytes of the datagram and its sender.
  unfoldable pub rtcp_recv :
      Given → TimeVal → Bool → Option (Slot × NmsSockaddr) → RtpSession F → Received F
  unfolding rtcp_hdr_val_chk rtp_ssrc_check parse_for looked_up
  rtcp_recv g now mem none s = returned unknown s
  rtcp_recv g now mem (some (p, server)) s =
      let r = rtp_ssrc_check g s.sess (word p 4) server rtcp in
      if rtcp_hdr_val_chk p (length p)
      then returned unknown s
      else parse_for now mem p (length p) r.code r.stm_src (looked_up zero s r.sess)
