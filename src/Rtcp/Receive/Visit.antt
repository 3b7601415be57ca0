-- ===== src/Rtcp/Receive/Visit.antt =====
-- Which packets of an accepted datagram are handled.
use libnemesi.Common.{
  ℕ, zero, suc, ◌+◌, ◌/◌, ◌<◌, ◌≤◌, ◌≡◌, ◌⊎◌, inl, inr, refl, ◌∙◌, Bool, false, List, [], ◌∷◌,
  arith, All, lt→ltb,
}
use libnemesi.Packet.{Slot}
use libnemesi.Rtp.Source.{TimeVal}
use libnemesi.Rtp.State.{Member}
use libnemesi.Rtcp.Check.{following, rtcp_hdr_val_chk}
use libnemesi.Rtcp.Check.Tiles.{Tiles, final, onward, rtcp_hdr_val_chk_lem}
use libnemesi.Rtcp.Receive.{
  parsed, Handled, go_on, returns, crashed, stuck, handle, continue, parse_loop, rtcp_parse_pkt,
}

-- The offsets of the packets from `w` on.
abbrev pub offsets : {p : Slot} {end w : ℕ} → Tiles p end w → List ℕ
offsets {w} (final e) = w ∷ []
offsets {w} (onward l v t) = w ∷ offsets t

offsets-starts : {p : Slot} {end w : ℕ} (t : Tiles p end w) → All (λ o. o < end) (offsets t)
offsets-starts (final e) = (omega arith, tt)
offsets-starts (onward l v t) = (omega arith, offsets-starts t)

continue_eq :
    {F : Type 0} (h : Handled F) (f g : Member F → Bool → Handled F)
    → ((m : Member F) (run : Bool) → f m run ≡ g m run)
    → continue h f ≡ continue h g
continue_eq (go_on m run) f g e = e m run
continue_eq (returns code m run) f g e = refl
continue_eq crashed f g e = refl
continue_eq stuck f g e = refl

module _ {F : Type 0} (now : TimeVal) (mem : Bool) (p : Slot) where
  -- The handlers called on the packets at the given offsets, one after the other, until one of them
  -- ends the function.
  abbrev pub run_all : List ℕ → Member F → Bool → Handled F
  run_all [] m run = returns parsed m run
  run_all (w ∷ ws) m run = continue (handle now mem p w m run) (λ m' run'. run_all ws m' run')

  ended :
      (end fuel w : ℕ) (m : Member F) (run : Bool)
      → end ≤ w
      → 0 < fuel
      → parse_loop now mem p end fuel w m run ≡ returns parsed m run
  unfolding parse_loop
  ended end zero w m run h f = absurd (omega arith)
  ended end (suc fuel) w m run h f = ground arith

  step :
      (end fuel w : ℕ) (m : Member F) (run : Bool)
      → w < end
      → parse_loop now mem p end (suc fuel) w m run
        ≡ continue
            (handle now mem p w m run)
            (λ m' run'. parse_loop now mem p end fuel (following p w) m' run')
  unfolding parse_loop
  step end fuel w m run h = rw (lt→ltb w end h) refl

  parse-Tiles :
      (end fuel w : ℕ) (t : Tiles p end w) (m : Member F) (run : Bool)
      → end < fuel + w
      → parse_loop now mem p end fuel w m run ≡ run_all (offsets t) m run
  parse-Tiles end zero w (final e) m run h = absurd (omega arith)
  parse-Tiles end zero w (onward l v t) m run h = absurd (omega arith)
  parse-Tiles end (suc fuel) w (final e) m run h =
      step end fuel w m run (omega arith)
      ∙ continue_eq (handle now mem p w m run) _ _
          (λ m' run'. ended end fuel (following p w) m' run' (omega arith) (omega arith))
  parse-Tiles end (suc fuel) w (onward l v t) m run h =
      step end fuel w m run (omega arith)
      ∙ continue_eq (handle now mem p w m run) _ _
          (λ m' run'. parse-Tiles end fuel (following p w) t m' run' (omega arith))

-- The offsets are those of the packets that follow one another from `w` up to `end`: the first packet
-- begins at `w`, each other one where the one before it ends, and the last one ends at `end`.
abbrev pub Follows : Slot → ℕ → List ℕ → ℕ → Type 0
Follows p end [] w = w ≡ end
Follows p end (x ∷ xs) w = (x ≡ w) × (w < end) × Follows p end xs (following p w)

offsets-Follows : {p : Slot} {end w : ℕ} (t : Tiles p end w) → Follows p end (offsets t) w
offsets-Follows (final e) = (refl, omega arith, e)
offsets-Follows (onward l v t) = (refl, omega arith, offsets-Follows t)

module _ (F : Type 0) (now : TimeVal) (mem : Bool) (p : Slot) where
  -- What rtcp_parse_pkt does to a datagram of `n` bytes.
  pub record Visits (n : ℕ) : Type 0 where
    pub ws : List ℕ
    pub runs :
        (m : Member F) (run : Bool) → rtcp_parse_pkt now mem p n m run ≡ run_all now mem p ws m run
    pub starts : All (λ w. w < n / 4) ws
    pub covers : Follows p (n / 4) ws 0 ⊎ ((ws ≡ 0 ∷ []) × (n / 4 ≤ following p 0))

  -- On an accepted datagram the loop of rtcp_parse_pkt ends. It calls the handlers for the packets of
  -- the datagram, one after the other, until one of them makes it return. Either these packets are the
  -- whole datagram: the first begins at its beginning, each other one where the one before it ends,
  -- and the last one ends with its last whole word. Or there is only the one at its beginning, which is
  -- at least as long as the datagram.
  pub rtcp_parse_pkt-Visits : (n : ℕ) → rtcp_hdr_val_chk p n ≡ false → Visits n
  unfolding rtcp_parse_pkt
  rtcp_parse_pkt-Visits n h = elim ((rtcp_hdr_val_chk_lem p n).0 h).1 [
    | inl c ↦ record {
      ws = offsets c.tiles;
      runs = λ m run. parse-Tiles now mem p (n / 4) (suc (n / 4)) 0 c.tiles m run (omega arith);
      starts = offsets-starts c.tiles;
      covers = inl (offsets-Follows c.tiles);
    }
    | inr s ↦ record {
      ws = 0 ∷ [];
      runs = λ m run.
          step now mem p (n / 4) (n / 4) 0 m run (omega (arith, ((rtcp_hdr_val_chk_lem p n).0 h).0))
          ∙ continue_eq (handle now mem p 0 m run) _ _ (λ m' run'.
            ended now mem p (n / 4) (n / 4) (following p 0) m' run' (omega (arith, s.whole))
              (omega (arith, ((rtcp_hdr_val_chk_lem p n).0 h).0)));
      starts = (omega (arith, ((rtcp_hdr_val_chk_lem p n).0 h).0), tt);
      covers = inr (refl, omega (arith, s.whole));
    }
  ]
