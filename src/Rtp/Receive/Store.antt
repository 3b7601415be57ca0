-- ===== src/Rtp/Receive/Store.antt =====
-- A packet that is received is stored or its slot is given back.
use libnemesi.Common.{
  ℕ, zero, suc, ◌<◌, ◌≡◌, ◌≢◌, refl, sym, ap, ◌∙◌, subst, ◌⊎◌, inl, inr, none, some, List, [], ◌∷◌,
  ◌++◌, arith, length, length-set, length-append, All, All-right, All-insert, All-remove, Fresh,
  Distinct-right, Distinct-insert, Distinct-remove, Fresh-middle, get_or-set_self,
}
use libnemesi.Common.Int.{pos}
use mathlib.Core.List.{append_assoc}
use libnemesi.Packet.{Slot}
use libnemesi.Bufferpool.{Link, BufferPool, bpfree}
use libnemesi.Bufferpool.FreeList.{IsPool}
use libnemesi.Bufferpool.Free.{bpfree-IsPool}
use libnemesi.Playout.{PoItem, PlayoutBuff, zero_item, item, added, key}
use libnemesi.Playout.Segment.{Seg}
use libnemesi.Playout.Unlink.{IsPlayout}
use libnemesi.Playout.Locate.{locate, locate-append}
use libnemesi.Playout.Add.{code_of, poadd-Outcome}
use libnemesi.Playout.Joint.{IsJoint}
use libnemesi.Rtp.Buffer.{Buffers}
use libnemesi.Rtp.Receive.{set_len, after_add, store_packet}

item-set_len :
    (a : List PoItem) (i n j : ℕ)
    → ((item (set_len a i n) j).prev ≡ (item a j).prev)
      × ((item (set_len a i n) j).next ≡ (item a j).next)
item-set_len [] i n j = (refl, refl)
item-set_len (x ∷ a) zero n zero = (refl, refl)
item-set_len (x ∷ a) zero n (suc j) = (refl, refl)
item-set_len (x ∷ a) (suc i) n zero = (refl, refl)
item-set_len (x ∷ a) (suc i) n (suc j) = item-set_len a i n j

Seg-set_len :
    (a : List PoItem) (i n : ℕ) (p h : Link) (xs : List ℕ) (l e : Link)
    → Seg a p h xs l e
    → Seg (set_len a i n) p h xs l e
Seg-set_len a i n p h [] l e s = s
Seg-set_len a i n p h (x ∷ xs) l e s = (
  s.0,
  (item-set_len a i n x).0 ∙ s.1,
  subst (λ q. Seg (set_len a i n) (some x) q xs l e) (sym (item-set_len a i n x).1)
      (Seg-set_len a i n (some x) (item a x).next xs l e s.2),
)

set_len-IsPlayout :
    (po : PlayoutBuff) (i n : ℕ) (xs : List ℕ)
    → IsPlayout po xs
    → IsPlayout (record po { pobuff = set_len po.pobuff i n }) xs
set_len-IsPlayout po i n xs v = record {
  chain = Seg-set_len po.pobuff i n none po.pohead xs po.potail none v.chain;
  distinct = v.distinct;
  in_range =
      subst (λ k. All (λ x. x < k) xs)
        (sym (length-set po.pobuff i (record (item po.pobuff i) { pktlen = n }))) v.in_range;
  count = v.count;
}

-- A held slot may stand anywhere among those held.
move-IsPool :
    (bp : BufferPool) (free before after : List ℕ) (y : ℕ)
    → IsPool bp free (y ∷ before ++ after)
    → IsPool bp free (before ++ y ∷ after)
move-IsPool bp free before after y v =
    let P : ℕ → Type 0 = λ x. x < bp.size in
    record {
      chain = v.chain;
      distinct = rw (append_assoc free before (y ∷ after)) at (
          Distinct-insert y (free ++ before) after
            (rw (append_assoc free before after) (Fresh-middle free (before ++ after) y v.distinct))
            (rw (append_assoc free before after)
              (Distinct-remove free (before ++ after) y v.distinct)));
      in_range = rw (append_assoc free before (y ∷ after)) at (
          All-insert P (free ++ before) after y
            (All-right P free (y ∷ before ++ after) v.in_range).0
            (rw (append_assoc free before after)
              (All-remove P free (before ++ after) y v.in_range)));
      complete =
          omega (arith, v.complete, length-append before (y ∷ after), length-append before after);
      count =
          v.count
          ∙ ap pos (omega (arith, length-append before (y ∷ after), length-append before after));
      links = v.links;
      slots = v.slots;
      whole = v.whole;
      bounded = v.bounded;
    }

module _ (before : Slot) (b : Buffers) (free held xs : List ℕ) (y cycles n : ℕ) where
  -- The packet was a duplicate: its slot is free, and the playout buffer is as it was.
  pub record IsDropped (b' : Buffers) : Type 0 where
    pub joint : IsJoint b'.bp b'.po (y ∷ free) held xs
    pub same : b'.po ≡ b.po

  -- The packet was put between `us` and `vs`, with its length.
  pub record IsStored (b' : Buffers) : Type 0 where
    pub us : List ℕ
    pub vs : List ℕ
    pub parts : us ++ vs ≡ xs
    pub joint : IsJoint b'.bp b'.po free held (us ++ y ∷ vs)
    pub pktlen : (item b'.po.pobuff y).pktlen ≡ n
    pub same : b'.bp ≡ b.bp

  module _ (v : IsJoint b.bp b.po free (y ∷ held) xs) where
    fresh : Fresh y xs
    fresh = All-right (λ z. z ≢ y) held xs (Distinct-right free (y ∷ held ++ xs) v.pool.distinct).0

    in_room : y < length b.po.pobuff
    in_room = omega (
      arith,
      v.room,
      v.pool.bounded,
      (All-right (λ z. z < b.bp.size) free (y ∷ held ++ xs) v.pool.in_range).0,
    )

    dropped : IsDropped (record { bp = bpfree b.bp y; po = b.po })
    dropped = record {
      joint = record {
        pool = (bpfree-IsPool b.bp free [] y (held ++ xs) v.pool).0;
        playout = v.playout;
        room = v.room;
      };
      same = refl;
    }

    stored :
        (us vs : List ℕ) (po : PlayoutBuff)
        → us ++ vs ≡ xs
        → IsPlayout po (us ++ y ∷ vs)
        → length po.pobuff ≡ length b.po.pobuff
        → IsStored (record { bp = b.bp; po = record po { pobuff = set_len po.pobuff y n } })
    stored us vs po e p s =
        let it : PoItem = record (item po.pobuff y) { pktlen = n } in
        record {
          us = us;
          vs = vs;
          parts = e;
          joint = record {
            pool = rw (append_assoc held us (y ∷ vs)) at (
                move-IsPool b.bp free (held ++ us) vs y (
                  rw (append_assoc held us vs)
                    (subst (λ k. IsPool b.bp free (y ∷ held ++ k)) (sym e) v.pool)));
            playout = set_len-IsPlayout po y n (us ++ y ∷ vs) p;
            room = length-set po.pobuff y it ∙ s ∙ v.room;
          };
          pktlen =
              ap (λ k. k.pktlen)
                (get_or-set_self po.pobuff y it zero_item (omega (arith, s, in_room)));
          same = refl;
        }

    after-code :
        (us : List ℕ) (po : PlayoutBuff)
        → after_add b y n (added (code_of us) po)
          ≡ some (record { bp = b.bp; po = record po { pobuff = set_len po.pobuff y n } })
    unfolding after_add
    after-code [] po = refl
    after-code (u ∷ us) po = refl

  -- A packet in a slot that the receiver holds, over a valid pool and playout buffer: the function
  -- returns, and afterwards either the slot is free again, the playout buffer unchanged, or it is
  -- in the playout buffer, with its length set, the other packets in their old order and the pool
  -- unchanged. Pool and playout buffer are valid in both cases, and no slot is lost.
  pub store_packet_lem :
      IsJoint b.bp b.po free (y ∷ held) xs
      → (b' : Buffers) × (store_packet before b y cycles n ≡ some b') × (IsDropped b' ⊎ IsStored b')
  unfolding store_packet after_add
  store_packet_lem v =
      let slots = b.bp.bufferpool in
      let w = locate before slots (key slots cycles y) b.po.cycles xs in
      elim (poadd-Outcome before slots b.po y cycles xs v.playout (fresh v) (in_room v)) [
        | inl (d, e) ↦
            (record { bp = bpfree b.bp y; po = b.po }, ap (after_add b y n) e, inl (dropped v))
        | inr (d, i) ↦ (
          record { bp = b.bp; po = record i.after { pobuff = set_len i.after.pobuff y n } },
          ap (after_add b y n) i.result ∙ after-code v w.passed i.after,
          inr (
              stored v w.passed w.left i.after
                (locate-append before slots (key slots cycles y) b.po.cycles xs) i.valid
                i.size_after),
        )
      ]
