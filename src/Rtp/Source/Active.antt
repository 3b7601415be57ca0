-- ===== src/Rtp/Source/Active.antt =====
-- The queue of active sources: the pointer half of rtp_init_seq (src/rtp/rtp_recv.c), and
-- rtp_active_ssrc_queue and rtp_next_active_ssrc (src/rtp/rtp_ssrc_queue.c).
use libnemesi.Common.{
  ℕ, zero, suc, ◌+◌, ◌<◌, ◌≡◌, refl, sym, ap, ◌∙◌, subst, Option, none, some, List, [], ◌∷◌, ◌++◌,
  get_or, set, length, get_or-set_self, get_or-set_ne, length-set, Fresh, Distinct, All,
}
use libnemesi.Bufferpool.{Link}
use libnemesi.Bufferpool.FreeList.{Chain, Chain-set}

-- `active_ssrc_queue` of a session, and `next_active` of each of its sources.
pub record Actives : Type 0 where
  pub active_ssrc_queue : Link
  pub next_active : List Link

-- "enqueue this SSRC in active SSRCs queue of RTP session"
unfoldable pub enqueue : Actives → ℕ → Actives
enqueue a s = record a {
  next_active = set a.next_active s a.active_ssrc_queue;
  active_ssrc_queue = some s;
}

-- A source of one of several sessions: the session's place, and the source's in it.
abbrev pub Source : Type 0
Source = ℕ × ℕ

-- The first session, counted from `i`, that has an active source.
unfoldable pub rtp_active_ssrc_queue : ℕ → List Actives → Option Source
rtp_active_ssrc_queue i [] = none
rtp_active_ssrc_queue i (a ∷ rest) = elim a.active_ssrc_queue [
  | some s ↦ some (i, s)
  | none ↦ rtp_active_ssrc_queue (i + 1) rest
]

-- The session of the source is the first of the list, and the others follow it.
unfoldable pub rtp_next_active_ssrc : ℕ → Actives → List Actives → ℕ → Option Source
rtp_next_active_ssrc i a rest s = elim (get_or a.next_active s none) [
  | some t ↦ some (i, t)
  | none ↦ rtp_active_ssrc_queue (i + 1) rest
]

-- The queue holds the sources `xs`.
pub record IsQueue (a : Actives) (xs : List ℕ) : Type 0 where
  pub chain : Chain a.next_active a.active_ssrc_queue xs
  pub distinct : Distinct xs
  pub in_range : All (λ x. x < length a.next_active) xs

-- A source that is not in the queue is put in front of it, and the queue stays as it is behind it.
pub enqueue-IsQueue :
    (a : Actives) (xs : List ℕ) (s : ℕ)
    → IsQueue a xs
    → Fresh s xs
    → s < length a.next_active
    → IsQueue (enqueue a s) (s ∷ xs)
unfolding enqueue
enqueue-IsQueue a xs s v f b = record {
  chain = (
    refl,
    rw (get_or-set_self a.next_active s a.active_ssrc_queue none b)
        (Chain-set a.next_active s a.active_ssrc_queue a.active_ssrc_queue xs f v.chain),
  );
  distinct = (f, v.distinct);
  in_range =
      subst (λ n. All (λ x. x < n) (s ∷ xs)) (sym (length-set a.next_active s a.active_ssrc_queue))
        (b, v.in_range);
}

-- `n` times `next_active`.
abbrev pub hops : List Link → ℕ → Link → Link
hops l zero h = h
hops l (suc n) none = none
hops l (suc n) (some s) = hops l n (get_or l s none)

hops-set :
    (l : List Link) (s : ℕ) (v h : Link) (xs ys : List ℕ)
    → Fresh s xs
    → Chain l h (xs ++ s ∷ ys)
    → hops (set l s v) (length xs) h ≡ some s
hops-set l s v h [] ys f c = c.0
hops-set l s v h (x ∷ xs) ys f c =
    ap (hops (set l s v) (suc (length xs))) c.0
    ∙ ap (hops (set l s v) (length xs)) (get_or-set_ne l s x v none (λ e. f.0 (sym e)))
    ∙ hops-set l s v (get_or l x none) xs ys f.1 c.1

-- When a source is put in the queue in which it already is, behind the sources `xs`, the queue
-- becomes a ring: from the source, `next_active` leads through `xs` back to it, so a walk over the
-- active sources never ends, and the sources `ys` behind it are no longer reached.
pub enqueue-ring :
    (a : Actives) (xs : List ℕ) (s : ℕ) (ys : List ℕ)
    → IsQueue a (xs ++ s ∷ ys)
    → Fresh s xs
    → s < length a.next_active
    → let a' = enqueue a s in
      (a'.active_ssrc_queue ≡ some s) × (hops a'.next_active (suc (length xs)) (some s) ≡ some s)
unfolding enqueue
enqueue-ring a xs s ys v f b = (
  refl,
  ap (hops (set a.next_active s a.active_ssrc_queue) (length xs))
        (get_or-set_self a.next_active s a.active_ssrc_queue none b)
      ∙ hops-set a.next_active s a.active_ssrc_queue a.active_ssrc_queue xs ys f v.chain,
)
