-- ===== src/Rtp/Recv/Examples.antt =====
-- The theorems on rtp_recv at a session whose pool holds one packet: a datagram of two bytes, which is
-- too short for a header; and the first packet after a seek. For doubles stand natural numbers.
use libnemesi.Common.{
  false, refl, Option, ℕ, ◌+◌, ◌≡◌, ◌⊎◌, true, none, some, List, [], ◌∷◌, ◌++◌, arith, length, drop,
  get_or, ◌-◌, ◌%◌,
}
use libnemesi.Packet.{Slot, byte, seq, time, word, pt}
use libnemesi.Bufferpool.{BufferPool, bp_max_size}
use libnemesi.Bufferpool.FreeList.{IsPool, range}
use libnemesi.Bufferpool.Get.{one_held, one_held-IsPool}
use libnemesi.Utils.Address.{NmsSockaddr, in4, inet}
use libnemesi.Rtp.Source.{u32}
use libnemesi.Rtp.Header.{rtp_hdr_val_chk, overhead}
use libnemesi.Rtp.Lookup.{Given}
use libnemesi.Rtp.State.{RtpSession, epoch, Member, PtDef, zero_member}
use libnemesi.Rtp.Recv.{Doubles, rate_of, rtp_update_fps, count_known}
use libnemesi.Rtp.Recv.Seek.{count_known-seek}
use libnemesi.Rtp.Recv.Datagram.{returned, blocked, rtp_recv}
use libnemesi.Rtp.Recv.Held.{SamePackets, rtp_recv-refused}

abbrev naturals : Doubles ℕ
naturals = record { zero = 0; ticks = λ t r. r; smooth = λ d j. d + j; ratio = λ a b. a }

abbrev own : NmsSockaddr
own = record { addr = in4 1 5004; addr_len = 16 }

abbrev given : Given
given = record {
  mem_src = true;
  mem_from = true;
  mem_to = true;
  mem_conf = true;
  mem_conf_addr = true;
  rtp_sockname = own;
  rtcp_sockname = own;
  has_name = λ a. true;
  random = 77;
  now = 0;
  thread_errs = (0, 0, 0);
}

abbrev session : RtpSession ℕ
session = record {
  sess = record {
    local_ssrc = 9;
    transport_ssrc = 0;
    sources = [];
    ssrc_queue = [];
    conf_queue = [];
    is_udp = true;
    srcaddr = inet 2;
    remote_port = 6001;
  };
  members = [];
  active = record { active_ssrc_queue = none; next_active = [] };
  bp = one_held;
  ptdefs = [];
  member_count = 1;
  senders = 0;
  avg_rtcp_size = 0;
  fps = 0;
  run = true;
}

abbrev short : Slot
short = 128 ∷ 0 ∷ []

short-refused :
    (old : Slot) → rtp_hdr_val_chk (short ++ drop (length short) old) (length short) ≡ true
unfolding rtp_hdr_val_chk overhead
short-refused old = ground arith

rtp_recv-refused_example :
    ((length {A = ℕ} (0 ∷ []) ≡ bp_max_size)
      × (rtp_recv naturals [] none given epoch (some (short, own)) session ≡ blocked))
    ⊎ ((bp' : BufferPool) × (free' : List ℕ) × (rtp_recv naturals [] none given epoch
            (some (short, own))
            session
          ≡ returned 0 (record session { bp = bp' }))
        × IsPool bp' free' (0 ∷ [])
        × SamePackets (0 ∷ []) one_held bp')
rtp_recv-refused_example =
    rtp_recv-refused naturals [] none given epoch session (range 1 149) (0 ∷ []) short own
      one_held-IsPool short-refused

abbrev packet : Slot
packet = 128 ∷ 0 ∷ 0 ∷ 7 ∷ 0 ∷ 0 ∷ 0 ∷ 9 ∷ 0 ∷ 0 ∷ 0 ∷ 5 ∷ []

abbrev sought : Member ℕ
sought = record (zero_member 0) { done_seek = true }

abbrev types : List (Option PtDef)
types = some (record { rate = 8000; prev_timestamp = 9 }) ∷ []

count_known-seek_example :
    count_known naturals epoch packet types 25 sought
    ≡ some (
      record sought {
        ssrc_stats = record sought.ssrc_stats {
          probation = 0;
          max_seq = seq packet;
          firstts = time packet;
          lastts = time packet;
          firsttv = epoch;
          jitter = 0;
          base_seq = (seq packet + u32 - 1) % u32;
          bad_seq = 65537;
          cycles = 0;
          received = 1;
          received_prior = 0;
          expected_prior = 1;
          transit = (rate_of (get_or types (pt packet) none) % u32 + u32 - time packet) % u32;
        };
        done_seek = false;
      },
      false,
      types,
      25,
    )
unfolding rtp_update_fps zero_member time word byte pt
count_known-seek_example = count_known-seek naturals epoch packet types types 25 25 sought refl refl
