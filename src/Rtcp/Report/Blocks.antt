-- ===== src/Rtcp/Report/Blocks.antt =====
-- What the blocks of a receiver report say.
use libnemesi.Common.{
  ℕ, suc, ◌+◌, ◌-◌, ◌*◌, ◌/◌, ◌%◌, ◌^◌, ◌<◌, ◌≤◌, ◌≡◌, refl, ap, ◌∙◌, inl, inr, Bool, false, not,
  List, [], ◌∷◌, arith, length, leb, zero, ◌||◌, ◌==◌, if◌then◌else◌, Bool-cases,
}
use libnemesi.Common.Int.{pos, negsuc, ◌≤ℤ◌}
use libnemesi.Rtp.Source.{TimeVal, u32}
use libnemesi.Rtcp.Report.{
  RtcpRr, Reported, sub_u32, int32, fraction_of, lost_of, swap24, block_of, reported, rr_loop,
  rtcp_build_rr,
}

-- The fraction for a given loss.
abbrev share : ℕ → ℕ → ℕ
share e l = if e == 0 || leb l 0 then 0 else l * 256 % u32 / e % 256

share-zero : (e : ℕ) → 0 ≡ 0 * 256 / e % 256
share-zero e = omega arith

share-small : (e l : ℕ) → 0 < e → l < 2 ^ 24 → share e l ≡ l * 256 / e % 256
share-small e zero he hl = ground (arith, share-zero e)
share-small e (suc l) he hl =
    ground arith
    ∙ ap (λ k. k / e % 256) (let q : suc l * 256 % u32 ≡ suc l * 256 = omega arith in q)

-- While fewer than 2^24 packets are lost in an interval, and none is surplus, the fraction is that of
-- the lost packets among the expected ones, in 256ths and rounded down, modulo 256.
pub fraction_of-lost :
    (e r : ℕ) → 0 < e → e < u32 → r ≤ e → e - r < 2 ^ 24 → fraction_of e r ≡ (e - r) * 256 / e % 256
unfolding fraction_of
fraction_of-lost e r he hu hr hl =
    ap (share e) (let q : sub_u32 e r ≡ e - r = omega arith in q) ∙ share-small e (e - r) he hl

-- When more packets came than were expected, as after duplicates, the fraction is not 0 but that of a
-- loss close to 2^32, to which the surplus has wrapped.
pub fraction_of-surplus :
    (e r : ℕ) → 0 < e → e < r → r < u32 → fraction_of e r ≡ (u32 + e - r) * 256 % u32 / e % 256
unfolding fraction_of
fraction_of-surplus e r he hr hu =
    ap (share e) (let q : sub_u32 e r ≡ u32 + e - r = omega arith in q) ∙ ground arith

-- The cumulative loss fits into 24 bits of two's complement.
pub lost_of_bounds :
    (e r : ℕ) → (negsuc (2 ^ 23 - 1) ≤ℤ lost_of e r) × (lost_of e r ≤ℤ pos 0x7fffff)
unfolding lost_of int32
lost_of_bounds e r = ground arith

-- The three bytes that go out, read as a number with the most significant one first, are the two's
-- complement of the clamped loss.
pub swap24-bits :
    (l : ℕ) → let v = swap24 l in v % 256 * 65536 + v / 256 % 256 * 256 + v / 65536 ≡ l % 2 ^ 24
unfolding swap24
swap24-bits l = omega arith

module _ {F : Type 0} (to_u32 : F → ℕ) (linear : TimeVal → ℕ) (now : TimeVal) where
  -- A source has had packets since its last report.
  abbrev pub is_due : Reported F → Bool
  is_due r = not (r.ssrc_stats.received_prior == r.ssrc_stats.received)

  abbrev pub blocks_of : List (Reported F) → List RtcpRr
  blocks_of [] = []
  blocks_of (r ∷ rest) =
      if is_due r then block_of to_u32 linear now r ∷ blocks_of rest else blocks_of rest

  abbrev pub after_report : List (Reported F) → List (Reported F)
  after_report [] = []
  after_report (r ∷ rest) =
      (if is_due r then reported to_u32 linear now r else r) ∷ after_report rest

  rr_loop-all :
      (sources : List (Reported F))
      → rr_loop to_u32 linear now 0 sources ≡ (blocks_of sources, after_report sources)
  unfolding rr_loop
  rr_loop-all [] = refl
  rr_loop-all (r ∷ rest) = elim (Bool-cases (is_due r)) [
    | inl e ↦ rw (rr_loop-all rest, e) refl
    | inr e ↦ rw (rr_loop-all rest, e) refl
  ]

  -- Every source that had packets since its last report gets its block, in the order of the
  -- sources, whatever their number: nothing stops the loop at MAX_PKT_SIZE. The count of the header
  -- is that of the blocks modulo 32, and the length returned is that of a packet with so many
  -- blocks.
  pub rtcp_build_rr-blocks :
      (sources : List (Reported F))
      → let (pkt, after) = rtcp_build_rr to_u32 linear now sources in
        (pkt.blocks ≡ blocks_of sources)
        × (pkt.count ≡ length (blocks_of sources) % 32)
        × (pkt.words ≡ length (blocks_of sources) % 32 * 6 + 2)
        × (after ≡ after_report sources)
  unfolding rtcp_build_rr
  rtcp_build_rr-blocks sources = rw (rr_loop-all sources) (refl, refl, refl, refl)

  not_due : (r : Reported F) → is_due (reported to_u32 linear now r) ≡ false
  unfolding reported
  not_due r = ground arith

  blocks_of-after : (sources : List (Reported F)) → blocks_of (after_report sources) ≡ []
  blocks_of-after [] = refl
  blocks_of-after (r ∷ rest) = elim (Bool-cases (is_due r)) [
    | inl e ↦ rw (e, not_due r) (blocks_of-after rest)
    | inr e ↦ rw (e, e) (blocks_of-after rest)
  ]

  -- A second report without packets in between has no blocks.
  pub rtcp_build_rr-twice :
      (sources : List (Reported F))
      → let after = (rtcp_build_rr to_u32 linear now sources).1 in
        (rtcp_build_rr to_u32 linear now after).0.blocks ≡ []
  rtcp_build_rr-twice sources =
      (rtcp_build_rr-blocks (rtcp_build_rr to_u32 linear now sources).1).0
      ∙ ap blocks_of (rtcp_build_rr-blocks sources).3
      ∙ blocks_of-after sources
