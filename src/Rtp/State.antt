-- ===== src/Rtp/State.antt =====
-- An RTP session with all that the receiving functions change in it, `rtp_session` and `rtp_ssrc` of
-- src/nemesi/rtp.h. The lookup's part of the sources is in `sess`; the rest of each source stands at
-- the same place in `members`. `F` is the type of C's doubles.
use libnemesi.Common.{
  ℕ, Bool, false, Option, none, List, [], ◌∷◌, ◌++◌, ltb, if◌then◌else◌, length, get_or, set,
  replicate,
}
use libnemesi.Common.Int.{pos}
use libnemesi.Bufferpool.{BufferPool}
use libnemesi.Rtp.Source.{Stats, TimeVal}
use libnemesi.Rtp.Source.Active.{Actives}
use libnemesi.Rtp.Lookup.{Session}

-- The part of `rtp_ssrc` that the receiving functions use: the statistics, the descriptions by their
-- type, and whether a seek is to be undone.
pub record Member (F : Type 0) : Type 0 where
  pub ssrc_stats : Stats F
  pub ssrc_sdes : List (Option (List ℕ))
  pub done_seek : Bool

-- `rtp_pt`, its clock rate and the time stamp of the last packet of the type.
pub record PtDef : Type 0 where
  pub rate : ℕ
  pub prev_timestamp : ℕ

-- `active` is the queue of active sources; `run` is the flag of the RTP thread that owns the session.
pub record RtpSession (F : Type 0) : Type 0 where
  pub sess : Session
  pub members : List (Member F)
  pub active : Actives
  pub bp : BufferPool
  pub ptdefs : List (Option PtDef)
  pub member_count : ℕ
  pub senders : ℕ
  pub avg_rtcp_size : F
  pub fps : F
  pub run : Bool

abbrev pub epoch : TimeVal
epoch = record { sec = pos 0; usec = pos 0 }

-- A source after calloc, for the double `zero`.
unfoldable pub zero_member : {F : Type 0} → F → Member F
zero_member zero = record {
  ssrc_stats = record {
    max_seq = 0;
    cycles = 0;
    base_seq = 0;
    bad_seq = 0;
    probation = 0;
    received = 0;
    expected_prior = 0;
    received_prior = 0;
    transit = 0;
    jitter = zero;
    lastsr = epoch;
    ntplastsr = (0, 0);
    firstts = 0;
    lastts = 0;
    firsttv = epoch;
  };
  ssrc_sdes = replicate 9 none;
  done_seek = false;
}

-- The session after a lookup that left `sess`: where it has made a source, its other part is there
-- too.
unfoldable pub looked_up : {F : Type 0} → F → RtpSession F → Session → RtpSession F
unfolding zero_member
looked_up zero s sess =
    if ltb (length s.members) (length sess.sources)
    then record s {
      sess = sess;
      members = s.members ++ (zero_member zero ∷ []);
      active = record (s.active) { next_active = s.active.next_active ++ (none ∷ []) };
    }
    else record s { sess = sess }

unfoldable pub member_at : {F : Type 0} → F → RtpSession F → ℕ → Member F
unfolding zero_member
member_at zero s i = get_or s.members i (zero_member zero)

abbrev pub put_member : {F : Type 0} → RtpSession F → ℕ → Member F → RtpSession F
put_member s i m = record s { members = set s.members i m }
