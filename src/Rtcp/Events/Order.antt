-- ===== src/Rtcp/Events/Order.antt =====
-- What rtcp_schedule does to the order of the queue.
use libnemesi.Common.{
  ℕ, ◌≡◌, refl, sym, ap, ◌∙◌, subst, ◌⊎◌, inl, inr, true, false, List, [], ◌∷◌, ◌++◌, arith, All,
  All-append, All-left, All-right, Bool-cases,
}
use mathlib.Core.List.{Perm, perm_middle}
use mathlib.Core.List.Perm
use libnemesi.Rtp.Source.{TimeVal}
use libnemesi.Utils.Timeval.Exact.{IsNormal, nms_timeval_subtract-Difference}
use libnemesi.Rtcp.Events.{RtcpType, RtcpEvent, is_before, pass_earlier, link_event, rtcp_schedule}

pass_earlier-append :
    (tv : TimeVal) (queue : List RtcpEvent)
    → let w = pass_earlier tv queue in w.passed ++ w.left ≡ queue
unfolding pass_earlier
pass_earlier-append tv [] = refl
pass_earlier-append tv (e ∷ queue) = elim (Bool-cases (is_before e.tv tv)) [
  | inl b ↦ rw b (ap (λ q. e ∷ q) (pass_earlier-append tv queue))
  | inr b ↦ rw b refl
]

link_event-perm :
    (new : RtcpEvent) (ps ls : List RtcpEvent) → Perm (link_event new ps ls) (new ∷ (ps ++ ls))
unfolding link_event
link_event-perm new [] [] = Perm.refl (new ∷ [])
link_event-perm new [] (l ∷ ls) = Perm.refl (new ∷ l ∷ ls)
link_event-perm new (p ∷ []) [] = perm_middle (p ∷ []) []
link_event-perm new (p ∷ []) (l ∷ ls) = Perm.refl (new ∷ p ∷ l ∷ ls)
link_event-perm new (p ∷ q ∷ ps) ls = perm_middle (p ∷ q ∷ ps) ls

module _ (queue : List RtcpEvent) (sess : ℕ) (tv : TimeVal) (kind : RtcpType) where
  abbrev pub new_event : RtcpEvent
  new_event = record { rtp_sess = sess; tv = tv; kind = kind }

  -- Given memory, rtcp_schedule adds the new event to the queue, loses none, and doubles none.
  pub rtcp_schedule-perm : Perm (rtcp_schedule true queue sess tv kind) (new_event ∷ queue)
  unfolding rtcp_schedule
  rtcp_schedule-perm =
      let w = pass_earlier tv queue in
      subst (λ q. Perm (link_event new_event w.passed w.left) (new_event ∷ q))
        (pass_earlier-append tv queue) (link_event-perm new_event w.passed w.left)

-- No event of the queue comes before an earlier one of it, and the times are normal.
abbrev pub Sorted : List RtcpEvent → Type 0
Sorted [] = Unit
Sorted (e ∷ queue) = IsNormal e.tv × All (λ f. is_before f.tv e.tv ≡ false) queue × Sorted queue

module _ (a b : TimeVal) (na : IsNormal a) (nb : IsNormal b) where
  is_before_asymm : is_before a b ≡ true → is_before b a ≡ false
  unfolding is_before
  is_before_asymm h = ground (
    arith,
    (nms_timeval_subtract-Difference a b na nb).3,
    (nms_timeval_subtract-Difference b a nb na).3,
  )

is_before_trans :
    (a b c : TimeVal)
    → IsNormal a
    → IsNormal b
    → IsNormal c
    → is_before a b ≡ false
    → is_before b c ≡ false
    → is_before a c ≡ false
unfolding is_before
is_before_trans a b c na nb nc h k = ground (
  arith,
  (nms_timeval_subtract-Difference a b na nb).3,
  (nms_timeval_subtract-Difference b c nb nc).3,
  (nms_timeval_subtract-Difference a c na nc).3,
)

module _ (tv : TimeVal) (n : IsNormal tv) where
  -- The events left are not before the new one.
  All-left-before :
      (e : RtcpEvent) (queue : List RtcpEvent)
      → is_before e.tv tv ≡ false
      → Sorted (e ∷ queue)
      → All (λ f. is_before f.tv tv ≡ false) (e ∷ queue)
  All-left-before e queue h s = (h, go queue s.1 s.2)
    where
      go :
          (q : List RtcpEvent)
          → All (λ f. is_before f.tv e.tv ≡ false) q
          → Sorted q
          → All (λ f. is_before f.tv tv ≡ false) q
      go [] b r = tt
      go (f ∷ q) b r = (is_before_trans f.tv e.tv tv r.0 s.0 n b.0 h, go q b.1 r.2)

  pass_earlier-before :
      (queue : List RtcpEvent)
      → Sorted queue
      → let w = pass_earlier tv queue in
        All (λ f. is_before f.tv tv ≡ true) w.passed × All (λ f. is_before f.tv tv ≡ false) w.left
  unfolding pass_earlier
  pass_earlier-before [] s = (tt, tt)
  pass_earlier-before (e ∷ queue) s = elim (Bool-cases (is_before e.tv tv)) [
    | inl b ↦ let (ps, ls) = pass_earlier-before queue s.2 in rw b ((b, ps), ls)
    | inr b ↦ rw b (tt, All-left-before e queue b s)
  ]

Sorted-insert :
    (new : RtcpEvent) (ps ls : List RtcpEvent)
    → IsNormal new.tv
    → All (λ f. is_before f.tv new.tv ≡ true) ps
    → All (λ f. is_before f.tv new.tv ≡ false) ls
    → Sorted (ps ++ ls)
    → Sorted (ps ++ new ∷ ls)
Sorted-insert new [] ls n b l s = (n, l, s)
Sorted-insert new (p ∷ ps) ls n b l s =
    let P : RtcpEvent → Type 0 = λ f. is_before f.tv p.tv ≡ false in
    (
      s.0,
      All-append P ps (new ∷ ls) (All-left P ps ls s.1)
          (is_before_asymm p.tv new.tv s.0 n b.0, All-right P ps ls s.1),
      Sorted-insert new ps ls n b.1 l s.2,
    )

link_event-Sorted :
    (new : RtcpEvent) (ps ls : List RtcpEvent)
    → Sorted (ps ++ new ∷ ls)
    → Sorted (link_event new ps ls)
      ⊎ ((p : RtcpEvent) × (l : RtcpEvent) × (rest : List RtcpEvent) × (ps ≡ p ∷ [])
          × (ls ≡ l ∷ rest)
          × (link_event new ps ls ≡ new ∷ p ∷ l ∷ rest))
unfolding link_event
link_event-Sorted new [] [] s = inl s
link_event-Sorted new [] (l ∷ ls) s = inl s
link_event-Sorted new (p ∷ []) [] s = inl s
link_event-Sorted new (p ∷ []) (l ∷ ls) s = inr (p, l, ls, refl, refl, refl)
link_event-Sorted new (p ∷ q ∷ ps) ls s = inl s

module _ (queue : List RtcpEvent) (sess : ℕ) (tv : TimeVal) (kind : RtcpType) where
  -- The one way in which the order is lost: the head is before the new event, some event follows
  -- the head and is not before the new one, and the new one goes in front of the head.
  abbrev Misplaced : List RtcpEvent → Type 0
  Misplaced r =
      (p : RtcpEvent) × (l : RtcpEvent) × (rest : List RtcpEvent) × (queue ≡ p ∷ l ∷ rest)
      × (is_before p.tv tv ≡ true)
      × (is_before l.tv tv ≡ false)
      × (r ≡ new_event queue sess tv kind ∷ p ∷ l ∷ rest)

  scheduled-cases :
      Sorted queue
      → IsNormal tv
      → let r = rtcp_schedule true queue sess tv kind in Sorted r ⊎ Misplaced r
  unfolding rtcp_schedule
  scheduled-cases s n =
      let new = new_event queue sess tv kind in
      let w = pass_earlier tv queue in
      let e = pass_earlier-append tv queue in
      let (b, l) = pass_earlier-before tv n queue s in
      elim (link_event-Sorted new w.passed w.left
        (Sorted-insert new w.passed w.left n b l (subst Sorted (sym e) s))) [
          | inl r ↦ inl r
          | inr (p, z, rest, ep, el, q) ↦ inr (
            p,
            z,
            rest,
            sym e ∙ ap (λ t. t ++ w.left) ep ∙ ap (λ t. p ∷ t) el,
            (subst (All (λ f. is_before f.tv tv ≡ true)) ep b).0,
            (subst (All (λ f. is_before f.tv tv ≡ false)) el l).0,
            q,
          )
        ]

module _ (p l : RtcpEvent) (rest : List RtcpEvent) (sess : ℕ) (tv : TimeVal) (kind : RtcpType) where
  schedule-front :
      is_before p.tv tv ≡ true
      → is_before l.tv tv ≡ false
      → rtcp_schedule true (p ∷ l ∷ rest) sess tv kind
        ≡ new_event (p ∷ l ∷ rest) sess tv kind ∷ p ∷ l ∷ rest
  unfolding rtcp_schedule pass_earlier link_event
  schedule-front b c = rw (b, c) refl

  -- Whenever the head of the queue is before the new event and the one behind it is not, the new
  -- event ends up in front of the head, which is before it: the queue is out of order.
  rtcp_schedule-Misplaced :
      is_before p.tv tv ≡ true
      → is_before l.tv tv ≡ false
      → let r = rtcp_schedule true (p ∷ l ∷ rest) sess tv kind in
        (r ≡ new_event (p ∷ l ∷ rest) sess tv kind ∷ p ∷ l ∷ rest) × ¬ (Sorted r)
  rtcp_schedule-Misplaced b c = (
    schedule-front b c,
    λ s. let early : is_before p.tv tv ≡ false = (subst Sorted (schedule-front b c) s).1.0 in cc,
  )

module _ (queue : List RtcpEvent) (sess : ℕ) (tv : TimeVal) (kind : RtcpType) where
  -- Of two events or more, the head alone is before the time of the new event.
  abbrev pub OnlyHead : Type 0
  OnlyHead =
      (p : RtcpEvent) × (l : RtcpEvent) × (rest : List RtcpEvent) × (queue ≡ p ∷ l ∷ rest)
      × (is_before p.tv tv ≡ true)
      × (is_before l.tv tv ≡ false)

  -- Given memory, a queue in order of time and a normal time, rtcp_schedule adds the new event to the
  -- queue, loses no event and doubles none. The queue stays in order, except when of two events or
  -- more exactly the head is before the new one: the new event is then put in front of the head, and
  -- the queue is out of order.
  pub rtcp_schedule-Sorted :
      Sorted queue
      → IsNormal tv
      → let r = rtcp_schedule true queue sess tv kind in
        let new = new_event queue sess tv kind in
        Perm r (new ∷ queue)
        × ((OnlyHead × (r ≡ new ∷ queue) × ¬ (Sorted r)) ⊎ (¬ OnlyHead × Sorted r))
  rtcp_schedule-Sorted s n = (rtcp_schedule-perm queue sess tv kind, either)
    where
      front :
          OnlyHead
          → let r = rtcp_schedule true queue sess tv kind in
            (r ≡ new_event queue sess tv kind ∷ queue) × ¬ (Sorted r)
      front (p, l, rest, e, b, c) =
          subst
            (λ q.
              (rtcp_schedule true q sess tv kind ≡ new_event q sess tv kind ∷ q)
              × ¬ (Sorted (rtcp_schedule true q sess tv kind)))
            (sym e) (rtcp_schedule-Misplaced p l rest sess tv kind b c)

      either :
          let r = rtcp_schedule true queue sess tv kind in
          (OnlyHead × (r ≡ new_event queue sess tv kind ∷ queue) × ¬ (Sorted r))
          ⊎ (¬ OnlyHead × Sorted r)
      either = elim (scheduled-cases queue sess tv kind s n) [
        | inl r ↦ inr (λ h. (front h).1 r, r)
        | inr (p, l, rest, e, b, c, q) ↦
            let f = front (p, l, rest, e, b, c) in inl ((p, l, rest, e, b, c), f.0, f.1)
      ]
