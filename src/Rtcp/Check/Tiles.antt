-- ===== src/Rtcp/Check/Tiles.antt =====
-- The check accepts the datagrams that their packets fill.
use libnemesi.Common.{
  ℕ, zero, suc, ◌+◌, ◌-◌, ◌*◌, ◌/◌, ◌<◌, ◌≤◌, ◌≡◌, ◌↔◌, ◌⊎◌, inl, inr, refl, ap, true, false, ◌&&◌,
  Option, none, some, arith, ltb, ◌==◌, Bool-cases, ==_iff, lt→ltb, ltb→lt,
}
use libnemesi.Packet.{Slot, byte}
use libnemesi.Rtcp.Packet.{common_ver, common_pad, common_pt, common_len, raw_len}
use libnemesi.Rtcp.Check.{following, walk, first_valid, stops_at, rtcp_hdr_val_chk}

-- From the packet at `w` on, packets follow one another up to `end`, and all but perhaps the first
-- have version 2.
pub data Tiles (p : Slot) (end : ℕ) : ℕ → Type 0 where
  final : {w : ℕ} → following p w ≡ end → Tiles p end w
  onward :
      {w : ℕ}
      → following p w < end
      → common_ver p (following p w) ≡ 2
      → Tiles p end (following p w)
      → Tiles p end w

walk-Tiles : (p : Slot) (end fuel w : ℕ) → walk p end fuel w ≡ some end → Tiles p end w
unfolding walk
walk-Tiles p end zero w h = cc
walk-Tiles p end (suc fuel) w h =
    elim (Bool-cases (ltb (following p w) end && common_ver p (following p w) == 2)) [
      | inl e ↦
          onward (ground arith) (ground arith) (walk-Tiles p end fuel (following p w) (rw e at h))
      | inr e ↦ let g : some (following p w) ≡ some end = rw e at h in final (cc)
    ]

Tiles-walk :
    (p : Slot) (end fuel w : ℕ) → Tiles p end w → end ≤ fuel + w → walk p end fuel w ≡ some end
unfolding walk
Tiles-walk p end zero w (final e) h = absurd (omega arith)
Tiles-walk p end zero w (onward l v t) h = absurd (omega arith)
Tiles-walk p end (suc fuel) w (final e) h = ground arith
Tiles-walk p end (suc fuel) w (onward l v t) h =
    ground (arith, Tiles-walk p end fuel (following p w) t (omega arith))

-- A compound datagram: it starts with a sender or receiver report and its packets fill it.
pub record IsCompound (p : Slot) (n : ℕ) : Type 0 where
  pub longer : common_len p 0 + 1 < n / 4
  pub ver : common_ver p 0 ≡ 2
  pub no_padding : common_pad p 0 ≡ 0
  pub report : (common_pt p 0 ≡ 200) ⊎ (common_pt p 0 ≡ 201)
  pub tiles : Tiles p (n / 4) 0

-- A datagram taken for one packet: the packet is at least as long as the datagram.
pub record IsSingle (p : Slot) (n : ℕ) : Type 0 where
  pub whole : n / 4 ≤ common_len p 0 + 1
  pub ver : common_ver p 0 ≡ 2
  pub pt_ge : 200 ≤ common_pt p 0
  pub pt_le : common_pt p 0 ≤ 204
  pub padding : (common_pad p 0 ≡ 0) ⊎ (byte p (n - 1) ≤ raw_len p 0 * 4)

first_valid_iff :
    (p : Slot)
    → (first_valid p ≡ true) ↔ (
        (common_ver p 0 ≡ 2)
        × (common_pad p 0 ≡ 0)
        × ((common_pt p 0 ≡ 200) ⊎ (common_pt p 0 ≡ 201)))
unfolding first_valid common_ver common_pad common_pt
first_valid_iff p = (λ h. ground arith, λ h. ground arith)

compound-accepted :
    (p : Slot) (n : ℕ)
    → common_len p 0 + 1 < n / 4
    → first_valid p ≡ true
    → walk p (n / 4) (n / 4) 0 ≡ some (n / 4)
    → rtcp_hdr_val_chk p n ≡ false
unfolding rtcp_hdr_val_chk
compound-accepted p n l f w =
    let a : ltb n 4 ≡ false = ground arith in
    let same : (n / 4 == n / 4) ≡ true = ground arith in rw (a, lt→ltb _ _ l, f, w, same) refl

accepted-compound :
    (p : Slot) (n : ℕ)
    → rtcp_hdr_val_chk p n ≡ false
    → common_len p 0 + 1 < n / 4
    → (first_valid p ≡ true) × (stops_at (walk p (n / 4) (n / 4) 0) (n / 4) ≡ true)
unfolding rtcp_hdr_val_chk
accepted-compound p n h l = ground arith

stopped : (o : Option ℕ) (end : ℕ) → stops_at o end ≡ true → o ≡ some end
unfolding stops_at
stopped none end h = cc
stopped (some w) end h = ap some ((==_iff w end).0 h)

accepted-IsSingle :
    (p : Slot) (n : ℕ) → rtcp_hdr_val_chk p n ≡ false → n / 4 ≤ common_len p 0 + 1 → IsSingle p n
unfolding rtcp_hdr_val_chk
accepted-IsSingle p n h l = ground arith

single-accepted : (p : Slot) (n : ℕ) → 4 ≤ n → IsSingle p n → rtcp_hdr_val_chk p n ≡ false
unfolding rtcp_hdr_val_chk
single-accepted p n h s = ground arith

accepted-ge : (p : Slot) (n : ℕ) → rtcp_hdr_val_chk p n ≡ false → 4 ≤ n
unfolding rtcp_hdr_val_chk
accepted-ge p n h = ground arith

-- A datagram is accepted exactly if it has four bytes or more and is of one of two kinds. Either it
-- is longer than its first packet says: then it must begin with a sender or receiver report without
-- padding, and its packets, each of version 2, must follow one another up to its last whole word.
-- Or it is not longer: then only the version, the type and the padding of the first packet are
-- looked at, and the packet may be cut short.
pub rtcp_hdr_val_chk_lem :
    (p : Slot) (n : ℕ)
    → (rtcp_hdr_val_chk p n ≡ false) ↔ ((4 ≤ n) × (IsCompound p n ⊎ IsSingle p n))
rtcp_hdr_val_chk_lem p n = (to, from)
  where
    to : rtcp_hdr_val_chk p n ≡ false → (4 ≤ n) × (IsCompound p n ⊎ IsSingle p n)
    to h = elim (Bool-cases (ltb (common_len p 0 + 1) (n / 4))) [
      | inl l ↦
          let (v, w) = accepted-compound p n h (ltb→lt _ _ l) in
          let f = (first_valid_iff p).0 v in
          (
            accepted-ge p n h,
            inl (record {
              longer = ltb→lt _ _ l;
              ver = f.0;
              no_padding = f.1;
              report = f.2;
              tiles = walk-Tiles p (n / 4) (n / 4) 0 (stopped _ _ w);
            }),
          )
      | inr l ↦ (accepted-ge p n h, inr (accepted-IsSingle p n h (ground arith)))
    ]

    from : (4 ≤ n) × (IsCompound p n ⊎ IsSingle p n) → rtcp_hdr_val_chk p n ≡ false
    from (h, inl c) =
        compound-accepted p n c.longer ((first_valid_iff p).1 (c.ver, c.no_padding, c.report))
          (Tiles-walk p (n / 4) (n / 4) 0 c.tiles (omega arith))
    from (h, inr s) = single-accepted p n h s
