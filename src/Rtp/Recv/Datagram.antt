-- ===== src/Rtp/Recv/Datagram.antt =====
-- A datagram at the socket of a session: the whole of rtp_recv in src/rtp/rtp_recv.c, from bpget to
-- the playout buffer of its source.
use libnemesi.Common.{
  ℕ, ◌+◌, ◌%◌, Option, none, some, [], ◌++◌, if◌then◌else◌, length, get_or, set, drop,
}
use libnemesi.Packet.{Slot, ssrc}
use libnemesi.Bufferpool.{Link, BufferPool, Got, slot, waiting, bpget, bpfree}
use libnemesi.Playout.{bprmv}
use libnemesi.Utils.Address.{NmsSockaddr}
use libnemesi.Rtp.Header.{rtp_hdr_val_chk}
use libnemesi.Rtp.Source.{TimeVal, u32}
use libnemesi.Rtp.Source.Active.{enqueue}
use libnemesi.Rtp.Lookup.{Given, rtp}
use libnemesi.Rtp.Lookup.Check.{
  Code, ssrc_known, ssrc_new, ssrc_rtpnew, ssrc_rtcpnew, ssrc_collision, fatal, source_at, put,
  rtp_ssrc_check,
}
use libnemesi.Rtp.State.{RtpSession, looked_up, member_at, put_member}
use libnemesi.Rtp.Receive.{store_packet}
use libnemesi.Rtp.Recv.{Doubles, Counted, count_known, count_first}

-- Where rtp_recv ends: it returns, waits in bpget for a slot, reads through NULL, or stays in the
-- loop of poadd.
pub data Received (F : Type 0) : Type 0 where
  returned : ℕ → RtpSession F → Received F
  blocked : Received F
  crashed : Received F
  endless : Received F

-- The bytes of a datagram over those that the slot had.
unfoldable pub fill : Slot → BufferPool → ℕ → BufferPool
fill p bp x = record bp {
  bufferpool = set bp.bufferpool x (p ++ drop (length p) (get_or bp.bufferpool x []));
}

module _ {F : Type 0} (o : Doubles F) (before : Slot) where
  -- What follows the switch.
  unfoldable pub store : RtpSession F → ℕ → ℕ → ℕ → Received F
  unfolding store_packet source_at member_at
  store s i x n =
      let src = source_at s.sess i in
      elim (store_packet before (record { bp = s.bp; po = src.po }) x
        (member_at o.zero s i).ssrc_stats.cycles n) [
          | none ↦ endless
          | some b ↦
              returned 0 (record s { bp = b.bp; sess = put s.sess i (record src { po = b.po }) })
        ]

  unfoldable pub finish : RtpSession F → ℕ → ℕ → ℕ → Counted F → Received F
  unfolding store enqueue
  finish s i x n none = crashed
  finish s i x n (some (m, active, ptdefs, fps)) =
      store
        (record (put_member s i m) {
          active = if active then enqueue s.active i else s.active;
          ptdefs = ptdefs;
          fps = fps;
        })
        i x n

  -- The switch over what the lookup said of the source at `i`.
  unfoldable pub on_code : TimeVal → Slot → ℕ → ℕ → RtpSession F → ℕ → Code → Received F
  unfolding finish store count_known count_first member_at source_at bprmv
  on_code now p n x s i ssrc_known =
      finish s i x n (count_known o now p s.ptdefs s.fps (member_at o.zero s i))
  on_code now p n x s i ssrc_new =
      finish
        (record s { senders = (s.senders + 1) % u32; member_count = (s.member_count + 1) % u32 }) i
        x n (count_first o now p s.ptdefs s.fps (member_at o.zero s i))
  on_code now p n x s i ssrc_rtpnew =
      finish s i x n (count_first o now p s.ptdefs s.fps (member_at o.zero s i))
  on_code now p n x s i ssrc_collision =
      let src = source_at s.sess i in
      let (bp, po) = bprmv s.bp src.po x in
      returned 0 (record s { bp = bp; sess = put s.sess i (record src { po = po }) })
  on_code now p n x s i fatal = returned 1 s
  on_code now p n x s i ssrc_rtcpnew = store s i x n

  -- The lookup left no source where it failed, and then only.
  unfoldable pub on_source : TimeVal → Slot → ℕ → ℕ → RtpSession F → Option ℕ → Code → Received F
  unfolding on_code
  on_source now p n x s (some i) code = on_code now p n x s i code
  on_source now p n x s none ssrc_known = crashed
  on_source now p n x s none ssrc_new = crashed
  on_source now p n x s none ssrc_rtpnew = crashed
  on_source now p n x s none ssrc_rtcpnew = crashed
  on_source now p n x s none ssrc_collision = crashed
  on_source now p n x s none fatal = returned 1 s

  -- A packet of `n` bytes in the slot `x`, from `server`.
  unfoldable pub on_packet : Given → TimeVal → RtpSession F → ℕ → ℕ → NmsSockaddr → Received F
  unfolding rtp_hdr_val_chk rtp_ssrc_check looked_up on_source
  on_packet g now s x n server =
      let p = get_or s.bp.bufferpool x [] in
      if rtp_hdr_val_chk p n
      then returned 0 (record s { bp = bpfree s.bp x })
      else (let r = rtp_ssrc_check g s.sess (ssrc p) server rtp in
          on_source now p n x (looked_up o.zero s r.sess) r.stm_src r.code)

  -- What recvfrom gives: a datagram and its sender, or `none` for an error.
  unfoldable pub on_slot :
      Given → TimeVal → Option (Slot × NmsSockaddr) → RtpSession F → Option Got → Received F
  unfolding on_packet fill
  on_slot g now d s none = endless
  on_slot g now d s (some (waiting bp)) = blocked
  on_slot g now none s (some (slot x bp)) = returned 1 (record s { bp = bp })
  on_slot g now (some (p, server)) s (some (slot x bp)) =
      on_packet g now (record s { bp = fill p bp x }) x (length p) server

  -- `stale` is what realloc leaves in the new entries of a pool that grows. bpget never returns a negative
  -- slot.
  unfoldable pub rtp_recv :
      Link → Given → TimeVal → Option (Slot × NmsSockaddr) → RtpSession F → Received F
  unfolding bpget on_slot
  rtp_recv stale g now d s = on_slot g now d s (bpget stale s.bp)
