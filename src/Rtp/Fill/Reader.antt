-- ===== src/Rtp/Fill/Reader.antt =====
-- The packets that wait in a playout buffer, as the parsers are given them: rtp_get_pkt and
-- rtp_rm_pkt do what the interface of src/parsers/ promises.
use libnemesi.Common.{
  ℕ, zero, suc, ◌≡◌, ◌≢◌, refl, sym, ap, subst, ◌∙◌, Bool, true, none, some, List, [], ◌∷◌, ◌++◌,
  get_or, set, All-left, All-right, Fresh, Fresh-middle, arith,
}
use mathlib.Core.List.{append-nil}
use libnemesi.Packet.{pt}
use libnemesi.Bufferpool.{Link}
use libnemesi.Playout.{PoItem, PlayoutBuff, item, relink_prev, relink_next, podel, bprmv}
use libnemesi.Playout.Joint.{bprmv-IsJoint}
use libnemesi.Rtp.Buffer.{Buffers, get_loop, rtp_get_pkt, rm_at, rtp_rm_pkt}
use libnemesi.Rtp.Buffer.Clear.{AreValid, potail-snoc}
use libnemesi.Parsers.Fill.{Packet, Queue}
use libnemesi.Rtp.Fill.{packet_at, got_packet, next_packet, drop_packet}

-- The slots from the tail on, as the list of the playout buffer from its head.
abbrev pub from_head : List ℕ → List ℕ
from_head [] = []
from_head (y ∷ ys) = from_head ys ++ y ∷ []

-- The length of a packet stays when another is taken out.
pktlen-set :
    (a : List PoItem) (i j : ℕ) (v : PoItem)
    → v.pktlen ≡ (item a i).pktlen
    → (item (set a i v) j).pktlen ≡ (item a j).pktlen
pktlen-set [] i j v h = refl
pktlen-set (x ∷ a) zero zero v h = h
pktlen-set (x ∷ a) zero (suc j) v h = refl
pktlen-set (x ∷ a) (suc i) zero v h = refl
pktlen-set (x ∷ a) (suc i) (suc j) v h = pktlen-set a i j v h

pktlen-relink_prev :
    (po : PlayoutBuff) (l v : Link) (j : ℕ)
    → (item (relink_prev po l v).pobuff j).pktlen ≡ (item po.pobuff j).pktlen
unfolding relink_prev
pktlen-relink_prev po none v j = refl
pktlen-relink_prev po (some i) v j =
    pktlen-set po.pobuff i j (record (item po.pobuff i) { prev = v }) refl

pktlen-relink_next :
    (po : PlayoutBuff) (l v : Link) (j : ℕ)
    → (item (relink_next po l v).pobuff j).pktlen ≡ (item po.pobuff j).pktlen
unfolding relink_next
pktlen-relink_next po none v j = refl
pktlen-relink_next po (some i) v j =
    pktlen-set po.pobuff i j (record (item po.pobuff i) { next = v }) refl

pktlen-podel :
    (po : PlayoutBuff) (y j : ℕ) → (item (podel po y).pobuff j).pktlen ≡ (item po.pobuff j).pktlen
unfolding podel
pktlen-podel po y j =
    let q = (item po.pobuff y).next in
    let m = (item po.pobuff y).prev in
    let po1 = relink_prev po q m in
    pktlen-relink_next po1 (item po1.pobuff y).prev (item po1.pobuff y).next j
    ∙ pktlen-relink_prev po q m j

module _ (known : ℕ → Bool) where
  -- The slots hold the packets, which are of known types.
  abbrev pub Shows : Buffers → List ℕ → List Packet → Type 0
  Shows b [] [] = Unit
  Shows b [] (x ∷ xs) = ⊥
  Shows b (y ∷ ys) [] = ⊥
  Shows b (y ∷ ys) (x ∷ xs) =
      (packet_at b y ≡ x) × (known (pt (get_or b.bp.bufferpool y [])) ≡ true) × Shows b ys xs

  -- The playout buffer holds the packets, the next one first, and is valid together with its pool.
  pub record Waits (b : Buffers) (xs : List Packet) : Type 0 where
    pub slots : List ℕ
    pub free : List ℕ
    pub held : List ℕ
    pub valid : AreValid b free held (from_head slots)
    pub shown : Shows b slots xs

  abbrev removed : Buffers → ℕ → Buffers
  removed b y = let (bp', po') = bprmv b.bp b.po y in record { bp = bp'; po = po' }

  packet-removed :
      (b : Buffers) (y i : ℕ)
      → get_or (removed b y).bp.bufferpool i [] ≡ get_or b.bp.bufferpool i []
      → packet_at (removed b y) i ≡ packet_at b i
  unfolding packet_at bprmv
  packet-removed b y i e = λ k. (e k, pktlen-podel b.po y i k)

  Shows-removed :
      (b : Buffers) (y : ℕ)
      → ((i : ℕ) → y ≢ i → get_or (removed b y).bp.bufferpool i [] ≡ get_or b.bp.bufferpool i [])
      → (ys : List ℕ) (xs : List Packet) → Fresh y (from_head ys)
      → Shows b ys xs
      → Shows (removed b y) ys xs
  Shows-removed b y same [] [] f v = tt
  Shows-removed b y same [] (x ∷ xs) f v = elim v [ ]
  Shows-removed b y same (z ∷ ys) [] f v = elim v [ ]
  Shows-removed b y same (z ∷ ys) (x ∷ xs) f (e, k, r) =
      let z_ne = (All-right (λ i. i ≢ y) (from_head ys) (z ∷ []) f).0 in
      let slot = same z (λ q. z_ne (sym q)) in
      (
        packet-removed b y z slot ∙ e,
        ap (λ t. known (pt t)) slot ∙ k,
        Shows-removed b y same ys xs (All-left (λ i. i ≢ y) (from_head ys) (z ∷ []) f) r,
      )

  at_tail :
      (b : Buffers) (y : ℕ)
      → b.po.potail ≡ some y
      → known (pt (get_or b.bp.bufferpool y [])) ≡ true
      → next_packet known b ≡ (some (packet_at b y), b)
  unfolding next_packet rtp_get_pkt got_packet get_loop
  at_tail b y e k = ground arith

  dropped : (b : Buffers) (y : ℕ) → b.po.potail ≡ some y → drop_packet b ≡ removed b y
  unfolding drop_packet rtp_rm_pkt rm_at
  dropped b y e = rw e refl

  next_of :
      (b : Buffers) (x : Packet) (xs : List Packet) (slots free held : List ℕ)
      → AreValid b free held (from_head slots)
      → Shows b slots (x ∷ xs)
      → ((next_packet known b).0 ≡ some x) × Waits (next_packet known b).1 (x ∷ xs)
  next_of b x xs [] free held v s = elim s [ ]
  next_of b x xs (y ∷ ys) free held v (e, k, r) =
      let q = at_tail b y (potail-snoc (from_head ys) y v.playout) k in
      (
        ap (λ t. t.0) q ∙ ap some e,
        subst (λ t. Waits t (x ∷ xs)) (sym (ap (λ t. t.1) q))
            (record { slots = y ∷ ys; free = free; held = held; valid = v; shown = (e, k, r) }),
      )

  drop_of :
      (b : Buffers) (x : Packet) (xs : List Packet) (slots free held : List ℕ)
      → AreValid b free held (from_head slots)
      → Shows b slots (x ∷ xs)
      → Waits (drop_packet b) xs
  drop_of b x xs [] free held v s = elim s [ ]
  drop_of b x xs (y ∷ ys) free held v (e, k, r) =
      let o = from_head ys in
      let (j, same, cleared) = bprmv-IsJoint b.bp b.po free held o y [] v in
      let out = subst (Fresh y) (append-nil o) (Fresh-middle o [] y v.playout.distinct) in
      subst (λ t. Waits t xs) (sym (dropped b y (potail-snoc o y v.playout)))
        (record {
          slots = ys;
          free = y ∷ free;
          held = held;
          valid = subst (AreValid (removed b y) (y ∷ free) held) (append-nil o) j;
          shown = Shows-removed b y same ys xs out r;
        })

  pub next_head :
      (b : Buffers) (x : Packet) (xs : List Packet)
      → Waits b (x ∷ xs)
      → ((next_packet known b).0 ≡ some x) × Waits (next_packet known b).1 (x ∷ xs)
  next_head b x xs v = next_of b x xs v.slots v.free v.held v.valid v.shown

  pub drop_head :
      (b : Buffers) (x : Packet) (xs : List Packet) → Waits b (x ∷ xs) → Waits (drop_packet b) xs
  drop_head b x xs v = drop_of b x xs v.slots v.free v.held v.valid v.shown

  -- The packets in a playout buffer, read by rtp_get_pkt and rtp_rm_pkt.
  abbrev pub reader : Queue Buffers
  reader = record {
    get = next_packet known;
    rm = drop_packet;
    Holds = Waits;
    get_head = next_head;
    rm_head = drop_head;
  }
