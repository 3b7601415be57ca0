-- ===== src/Rtp/Recv/Seek.antt =====
-- What the first packet after a seek does to the statistics of its source.
use libnemesi.Common.{
  ◌+◌, ◌-◌, ◌%◌, ◌≡◌, refl, none, true, false, Option, some, List, arith, get_or,
}
use libnemesi.Packet.{Slot, seq, seq-lt, time, pt}
use libnemesi.Rtp.Source.{TimeVal, Stats, u32, udelta, update_ahead, count_one, rtp_update_seq}
use libnemesi.Rtp.State.{Member, PtDef}
use libnemesi.Rtp.Recv.{
  Doubles, rate_of, transit_of, seek_reset, timed, tally, rtp_update_fps, count_known,
}

module _ {F : Type 0} (o : Doubles F) where
  -- The statistics with the packet counted.
  counted :
      (now : TimeVal) (p : Slot) (s : Stats F)
      → rtp_update_seq (seek_reset o now p s) (seq p)
        ≡ (record (seek_reset o now p s) { received = 1 }, false)
  unfolding rtp_update_seq update_ahead count_one udelta seek_reset
  counted now p s = ground (arith, seq-lt p)

  -- The first packet after a seek, of a type that the session knows, from a source that is known: its
  -- statistics begin with it, whatever they were. The source is off probation, the packet is the only
  -- one received and the one with the highest number, of the first cycle; the time stamps and the time
  -- of arrival are its own, the transit time is counted at the rate of its type, and there is no
  -- jitter. The source is not put in the queue of active ones again, and the mark of the seek is taken
  -- from it.
  pub count_known-seek :
      (now : TimeVal) (p : Slot) (ptdefs ptdefs' : List (Option PtDef)) (fps fps' : F)
      (m : Member F)
      → m.done_seek ≡ true
      → rtp_update_fps o ptdefs fps (time p) (pt p) ≡ some (ptdefs', fps')
      → count_known o now p ptdefs fps m
        ≡ some (
          record m {
            ssrc_stats = record m.ssrc_stats {
              probation = 0;
              max_seq = seq p;
              firstts = time p;
              lastts = time p;
              firsttv = now;
              jitter = o.zero;
              base_seq = (seq p + u32 - 1) % u32;
              bad_seq = 65537;
              cycles = 0;
              received = 1;
              received_prior = 0;
              expected_prior = 1;
              transit =
                  (o.ticks now (rate_of (get_or ptdefs' (pt p) none)) % u32 + u32 - time p) % u32;
            };
            done_seek = false;
          },
          false,
          ptdefs',
          fps',
        )
  unfolding count_known tally timed seek_reset transit_of
  count_known-seek now p ptdefs ptdefs' fps fps' m d e = rw (d, counted now p m.ssrc_stats, e) refl
