-- ===== src/Rtp/Buffer/Read.antt =====
-- Looking at the packets of a playout buffer.
use libnemesi.Common.{
  ℕ, zero, suc, ◌<◌, ◌≡◌, ◌≢◌, refl, sym, ap, ◌∙◌, subst, Bool, true, false, none, some, List, [],
  ◌∷◌, ◌++◌, arith, length, length-append, ◌⊎◌, inl, inr, All, All-map, All-append, All-left,
  All-right, All-zip, Fresh, Fresh-middle, Bool-cases, get_or,
}
use mathlib.Core.List.{append_assoc, append-nil}
use libnemesi.Common.Int.{pos_part}
use libnemesi.Packet.{pt}
use libnemesi.Playout.{PlayoutBuff, item, bprmv}
use libnemesi.Playout.Segment.{Seg-split}
use libnemesi.Playout.Unlink.{IsPlayout}
use libnemesi.Playout.Joint.{bprmv-IsJoint}
use libnemesi.Rtp.Buffer.{
  Buffers, follow, rtp_get_n_pkt, rm_at, rtp_rm_pkt, Get, got, get_loop, rtp_get_pkt,
}
use libnemesi.Rtp.Buffer.Clear.{snoc, potail-nil, potail-snoc, AreValid}

tail_next :
    {po : PlayoutBuff} (ys : List ℕ) (y : ℕ)
    → IsPlayout po (ys ++ y ∷ [])
    → (item po.pobuff y).next ≡ none
tail_next {po} ys y v =
    let (m, n, s, t) = Seg-split po.pobuff none po.pohead ys (y ∷ []) po.potail none v.chain in
    t.2.1

-- For packet number 0 rtp_get_n_pkt gives the packet at the tail, the next to be played. For every
-- other number it gives NULL, however many packets the buffer holds.
pub rtp_get_n_pkt-tail :
    (po : PlayoutBuff) (ys : List ℕ) (y : ℕ)
    → IsPlayout po (ys ++ y ∷ [])
    → (rtp_get_n_pkt po 0 ≡ some y) × ((n : ℕ) → rtp_get_n_pkt po (suc n) ≡ none)
unfolding rtp_get_n_pkt follow
rtp_get_n_pkt-tail po ys y v =
    let e = potail-snoc ys y v in
    (
      ap (λ l. follow po.pobuff l 0) e,
      λ n.
          ap (λ l. follow po.pobuff l (suc n)) e
          ∙ ap (λ l. follow po.pobuff l n) (tail_next ys y v)
          ∙ follow-none n,
    )
  where
    follow-none : (n : ℕ) → follow po.pobuff none n ≡ none
    follow-none zero = refl
    follow-none (suc n) = refl

-- rtp_rm_pkt removes the packet at the tail, and only that.
pub rtp_rm_pkt-AreValid :
    (b : Buffers) (free held ys : List ℕ) (y : ℕ)
    → AreValid b free held (ys ++ y ∷ [])
    → (b' : Buffers) × (rtp_rm_pkt b ≡ some b') × AreValid b' (y ∷ free) held ys
unfolding rtp_rm_pkt rm_at
rtp_rm_pkt-AreValid b free held ys y v =
    let (bp', po') = bprmv b.bp b.po y in
    let b' : Buffers = record { bp = bp'; po = po' } in
    (
      b',
      ap (rm_at b) (potail-snoc ys y v.playout),
      subst (AreValid b' (y ∷ free) held) (append-nil ys)
          (bprmv-IsJoint b.bp b.po free held ys y [] v).0,
    )

module _ (known : ℕ → Bool) (held : List ℕ) where
  -- The payload type of the packet in a slot has a definition.
  abbrev pub is_known : Buffers → ℕ → Bool
  is_known b i = known (pt (get_or b.bp.bufferpool i []))

  -- The packets `dropped` at the tail, all of unknown types, are gone; what is left is `kept`,
  -- whose tail is returned and is of a known type.
  pub record Trimmed (b : Buffers) (xs : List ℕ) (r : Get) : Type 0 where
    pub kept : List ℕ
    pub dropped : List ℕ
    pub free_after : List ℕ
    pub after : Buffers
    pub parts : xs ≡ kept ++ dropped
    pub unknown : All (λ i. is_known b i ≡ false) dropped
    pub valid : AreValid after free_after held kept
    pub result :
        ((kept ≡ []) × (r ≡ got none after))
        ⊎ ((ks : List ℕ) × (k : ℕ) × (kept ≡ ks ++ k ∷ [])
            × (is_known b k ≡ true)
            × (r ≡ got (some k) after))

  get_loop-end : (n : ℕ) (b : Buffers) → b.po.potail ≡ none → get_loop known (suc n) b ≡ got none b
  unfolding get_loop
  get_loop-end n b e = ground arith

  get_loop-known :
      (n : ℕ) (b : Buffers) (y : ℕ)
      → b.po.potail ≡ some y
      → is_known b y ≡ true
      → get_loop known (suc n) b ≡ got (some y) b
  unfolding get_loop
  get_loop-known n b y e k = ground arith

  abbrev removed : Buffers → ℕ → Buffers
  removed b y = let (bp', po') = bprmv b.bp b.po y in record { bp = bp'; po = po' }

  get_loop-unknown :
      (n : ℕ) (b : Buffers) (y : ℕ)
      → b.po.potail ≡ some y
      → is_known b y ≡ false
      → get_loop known (suc n) b ≡ get_loop known n (removed b y)
  unfolding get_loop
  get_loop-unknown n b y e k = ground arith

  module _ (b : Buffers) (ys : List ℕ) (y : ℕ)
      (same : (i : ℕ) → y ≢ i → is_known (removed b y) i ≡ is_known b i) (out : Fresh y ys)
      (at_tail : b.po.potail ≡ some y) (k : is_known b y ≡ false) where
    Trimmed-unknown :
        (n : ℕ)
        → Trimmed (removed b y) ys (get_loop known n (removed b y))
        → Trimmed b (ys ++ y ∷ []) (get_loop known (suc n) b)
    Trimmed-unknown n t =
        let step = get_loop-unknown n b y at_tail k in
        let out' = subst (Fresh y) t.parts out in
        record {
          kept = t.kept;
          dropped = t.dropped ++ y ∷ [];
          free_after = t.free_after;
          after = t.after;
          parts = ap (λ l. l ++ y ∷ []) t.parts ∙ append_assoc t.kept t.dropped (y ∷ []);
          unknown =
              All-append (λ i. is_known b i ≡ false) t.dropped (y ∷ [])
                (All-map (λ i. (i ≢ y) × (is_known (removed b y) i ≡ false))
                  (λ i. is_known b i ≡ false) (λ i (ne, u). sym (same i (λ e. ne (sym e))) ∙ u)
                  t.dropped
                  (All-zip (λ i. i ≢ y) (λ i. is_known (removed b y) i ≡ false) t.dropped
                    (All-right (λ i. i ≢ y) t.kept t.dropped out') t.unknown))
                (k, tt);
          valid = t.valid;
          result = elim t.result [
            | inl (e, r) ↦ inl (e, step ∙ r)
            | inr (ks, z, e, u, r) ↦
                let kept_out = subst (Fresh y) e (All-left (λ i. i ≢ y) t.kept t.dropped out') in
                let ne = (All-right (λ i. i ≢ y) ks (z ∷ []) kept_out).0 in
                inr (ks, z, e, sym (same z (λ q. ne (sym q))) ∙ u, step ∙ r)
          ];
        }

  get_loop-Trimmed :
      (n : ℕ) (b : Buffers) (free xs : List ℕ)
      → AreValid b free held xs
      → length xs < n
      → Trimmed b xs (get_loop known n b)
  get_loop-Trimmed zero b free xs v h = absurd (omega arith)
  get_loop-Trimmed (suc n) b free [] v h = record {
    kept = [];
    dropped = [];
    free_after = free;
    after = b;
    parts = refl;
    unknown = tt;
    valid = v;
    result = inl (refl, get_loop-end n b (potail-nil v.playout));
  }
  get_loop-Trimmed (suc n) b free (x ∷ xs) v h =
      let (ys, y, e) = snoc x xs in
      let v' = subst (λ l. AreValid b free held l) e v in
      let at_tail = potail-snoc ys y v'.playout in
      elim (Bool-cases (is_known b y)) [
        | inl k ↦ record {
          kept = x ∷ xs;
          dropped = [];
          free_after = free;
          after = b;
          parts = sym (append-nil (x ∷ xs));
          unknown = tt;
          valid = v;
          result = inr (ys, y, e, k, get_loop-known n b y at_tail k);
        }
        | inr k ↦
            let (j, same, cleared) = bprmv-IsJoint b.bp b.po free held ys y [] v' in
            let v1 = subst (AreValid (removed b y) (y ∷ free) held) (append-nil ys) j in
            let out = subst (Fresh y) (append-nil ys) (Fresh-middle ys [] y v'.playout.distinct) in
            subst (λ l. Trimmed b l (get_loop known (suc n) b)) (sym e)
              (Trimmed-unknown b ys y (λ i ne. ap (λ s. known (pt s)) (same i ne)) out at_tail k n
                (get_loop-Trimmed n (removed b y) (y ∷ free) ys v1
                  (omega (arith, ap length e, length-append ys (y ∷ [])))))
      ]

  -- On valid buffers rtp_get_pkt returns: it removes the packets of unknown payload types from the
  -- tail up to the first of a known one, and gives that one's slot, or NULL if there is none.
  pub rtp_get_pkt-Trimmed :
      (b : Buffers) (free xs : List ℕ)
      → AreValid b free held xs
      → Trimmed b xs (rtp_get_pkt known b)
  unfolding rtp_get_pkt
  rtp_get_pkt-Trimmed b free xs v =
      get_loop-Trimmed (suc (pos_part b.po.pocount)) b free xs v
        (subst (λ c. length xs < suc (pos_part c)) (sym v.playout.count) (omega arith))
