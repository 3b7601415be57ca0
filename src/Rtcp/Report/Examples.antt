-- ===== src/Rtcp/Report/Examples.antt =====
-- The theorem on receiver reports at one source.
use libnemesi.Common.{ℕ, ◌+◌, ◌*◌, ◌%◌, ◌≡◌, List, [], ◌∷◌, length}
use libnemesi.Common.Int.{pos}
use libnemesi.Rtp.Source.{Stats, TimeVal}
use libnemesi.Rtcp.Report.{Reported, rtcp_build_rr}
use libnemesi.Rtcp.Report.Blocks.{blocks_of, after_report, rtcp_build_rr-blocks}

abbrev midnight : TimeVal
midnight = record { sec = pos 0; usec = pos 0 }

abbrev heard : Stats ℕ
heard = record {
  max_seq = 110;
  cycles = 0;
  base_seq = 99;
  bad_seq = 65537;
  probation = 0;
  received = 8;
  expected_prior = 1;
  received_prior = 0;
  transit = 0;
  jitter = 0;
  lastsr = midnight;
  ntplastsr = (0, 0);
  firstts = 0;
  lastts = 0;
  firsttv = midnight;
}

abbrev sources : List (Reported ℕ)
sources = record { ssrc = 1; ssrc_stats = heard } ∷ []

abbrev same : ℕ → ℕ
same n = n

abbrev no_time : TimeVal → ℕ
no_time t = 0

rtcp_build_rr-blocks_example :
    let (pkt, after) = rtcp_build_rr same no_time midnight sources in
    (pkt.blocks ≡ blocks_of same no_time midnight sources)
    × (pkt.count ≡ length (blocks_of same no_time midnight sources) % 32)
    × (pkt.words ≡ length (blocks_of same no_time midnight sources) % 32 * 6 + 2)
    × (after ≡ after_report same no_time midnight sources)
rtcp_build_rr-blocks_example = rtcp_build_rr-blocks same no_time midnight sources
