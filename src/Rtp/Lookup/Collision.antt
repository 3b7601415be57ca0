-- ===== src/Rtp/Lookup/Collision.antt =====
-- What a collision of this participant's own SSRC leaves, and what a failed rtp_ssrc_init does.
use libnemesi.Common.{
  ℕ, ◌≡◌, ◌≢◌, refl, ap, ◌∙◌, Bool, true, false, ◌&&◌, none, some, List, [], ◌∷◌, ◌++◌, arith, ◌==◌,
  length, Bool-cases, Option-cases, inl, inr, ◌⊎◌,
}
use libnemesi.Utils.Address.{NmsSockaddr, sockaddr_get_nms_addr}
use libnemesi.Rtp.Lookup.{
  Proto, rtp, rtcp, Conflict, Session, Given, nms_sockaddr_dup, set_to, new_source, rtp_ssrc_init,
  zero_po,
}
use libnemesi.Rtp.Lookup.Check.{
  fatal, find, init_po, check_new, differs, touch, sockname, new_collision, check_local,
  rtp_ssrc_check,
}

-- Whether a conflict is found does not depend on the time.
touch-none :
    (x : NmsSockaddr) (t t' : ℕ) (queue : List Conflict)
    → touch x t queue ≡ none
    → touch x t' queue ≡ none
unfolding touch
touch-none x t t' [] h = refl
touch-none x t t' (c ∷ queue) h = elim (Bool-cases (differs c.transaddr x)) [
  | inl d ↦ elim (Option-cases (touch x t queue)) [
    | inl e ↦ rw (d, touch-none x t t' queue e) refl
    | inr (q, e) ↦ ground arith
  ]
  | inr d ↦ ground arith
]

touch-cons :
    (x : NmsSockaddr) (t : ℕ) (c : Conflict) (queue : List Conflict)
    → differs c.transaddr x ≡ true
    → touch x t queue ≡ none
    → touch x t (c ∷ queue) ≡ none
unfolding touch
touch-cons x t c queue d h = rw (d, h) refl

differs-dup :
    (mem : Bool) (x y : NmsSockaddr)
    → differs (some x) y ≡ true
    → differs (nms_sockaddr_dup mem x) y ≡ true
unfolding differs nms_sockaddr_dup
differs-dup true x y h = h
differs-dup false x y h = refl

init-conf :
    (g : Given) (sess : Session) (ssrc : ℕ) (recfrom : NmsSockaddr) (proto : Proto)
    → (rtp_ssrc_init g sess ssrc recfrom proto).sess.conf_queue ≡ sess.conf_queue
unfolding rtp_ssrc_init
init-conf g sess ssrc recfrom proto = ground arith

module _ (g : Given) (sess : Session) (recfrom : NmsSockaddr) (proto : Proto) where
  -- The conflict that is entered.
  abbrev entered : Conflict
  entered = record { transaddr = nms_sockaddr_dup g.mem_conf_addr (sockname g proto); time = g.now }

  new_collision-conf :
      (ssrc : ℕ)
      → let r = new_collision g sess ssrc recfrom proto in
        (r.sess.conf_queue ≡ sess.conf_queue) ⊎ (r.sess.conf_queue ≡ entered ∷ sess.conf_queue)
  unfolding new_collision init_po rtp_ssrc_init
  new_collision-conf ssrc = ground arith

  new_collision-local :
      (ssrc : ℕ)
      → let r = new_collision g sess ssrc recfrom proto in
        (r.sess.local_ssrc ≡ g.random) × (r.sess.is_udp ≡ sess.is_udp)
  unfolding new_collision init_po rtp_ssrc_init
  new_collision-local ssrc = ground arith

  -- A sender that is not known as a conflict and is not this participant's own socket.
  pub record IsStranger : Type 0 where
    pub is_udp : sess.is_udp ≡ true
    pub apart : differs (some (sockname g proto)) recfrom ≡ true
    pub unknown : touch recfrom g.now sess.conf_queue ≡ none

  check_local-collision :
      IsStranger
      → rtp_ssrc_check g sess sess.local_ssrc recfrom proto
        ≡ new_collision g sess sess.local_ssrc recfrom proto
  unfolding rtp_ssrc_check check_local
  check_local-collision s =
      let own : (sess.local_ssrc == sess.local_ssrc) ≡ true = ground arith in
      let test : (sess.is_udp && differs (some (sockname g proto)) recfrom) ≡ true =
        ap (λ b. b && differs (some (sockname g proto)) recfrom) s.is_udp ∙ s.apart in
      rw (own, test, s.unknown) refl

  still_unknown :
      (t : ℕ)
      → IsStranger
      → touch recfrom t (new_collision g sess sess.local_ssrc recfrom proto).sess.conf_queue ≡ none
  still_unknown t s =
      let u = touch-none recfrom g.now t sess.conf_queue s.unknown in
      elim (new_collision-conf sess.local_ssrc) [
        | inl e ↦ ap (touch recfrom t) e ∙ u
        | inr e ↦
            ap (touch recfrom t) e
            ∙ touch-cons recfrom t entered sess.conf_queue
                (differs-dup g.mem_conf_addr (sockname g proto) recfrom s.apart) u
      ]

module _ (g g2 : Given) (sess : Session) (recfrom : NmsSockaddr) (proto : Proto) where
  -- Over UDP, a packet with this participant's own SSRC from a sender that is no known conflict, and
  -- not its own socket, makes it take a random SSRC. The sender is not known as a conflict
  -- afterwards, for the address entered is this participant's own: when the sender uses the new
  -- SSRC too, this participant changes its SSRC again.
  pub rtp_ssrc_check-forgets :
      IsStranger g sess recfrom proto
      → differs (some (sockname g2 proto)) recfrom ≡ true
      → let r = rtp_ssrc_check g sess sess.local_ssrc recfrom proto in
        let r2 = rtp_ssrc_check g2 r.sess r.sess.local_ssrc recfrom proto in
        (r.sess.local_ssrc ≡ g.random)
        × ((t : ℕ) → touch recfrom t r.sess.conf_queue ≡ none)
        × (r2.sess.local_ssrc ≡ g2.random)
  rtp_ssrc_check-forgets s apart =
      let r = new_collision g sess sess.local_ssrc recfrom proto in
      let l = new_collision-local g sess recfrom proto sess.local_ssrc in
      let again : IsStranger g2 r.sess recfrom proto = record {
        is_udp = l.1 ∙ s.is_udp;
        apart = apart;
        unknown = still_unknown g sess recfrom proto g2.now s;
      } in
      rw
        (
          check_local-collision g sess recfrom proto s,
          check_local-collision g2 r.sess recfrom proto again,
        )
        (
          l.0,
          λ t. still_unknown g sess recfrom proto t s,
          (new_collision-local g2 r.sess recfrom proto r.sess.local_ssrc).0,
        )

new_source-pohead :
    (g : Given) (id : ℕ) (recfrom : NmsSockaddr) (proto : Proto)
    → (new_source g id recfrom proto).po.pohead ≡ some 0
unfolding new_source zero_po
new_source-pohead g id recfrom rtp = refl
new_source-pohead g id recfrom rtcp = refl

-- Over UDP, a packet with a new SSRC from an address of an unknown family is refused with -1, given
-- memory, but its source stays at the head of the queue, with a playout buffer that poinit has not
-- seen: its head is slot 0 and not -1.
pub check_new-stays :
    (g : Given) (sess : Session) (id : ℕ) (recfrom : NmsSockaddr) (proto : Proto)
    → sess.local_ssrc ≢ id
    → find sess sess.ssrc_queue id ≡ none
    → g.mem_src ≡ true
    → sess.is_udp ≡ true
    → sockaddr_get_nms_addr recfrom.addr ≡ none
    → let r = rtp_ssrc_check g sess id recfrom proto in
      (r.code ≡ fatal)
      × (r.sess.ssrc_queue ≡ length sess.sources ∷ sess.ssrc_queue)
      × (r.sess.sources ≡ sess.sources ++ (new_source g id recfrom proto ∷ []))
      × ((new_source g id recfrom proto).po.pohead ≡ some 0)
unfolding rtp_ssrc_check check_new rtp_ssrc_init set_to new_source zero_po
check_new-stays g sess id recfrom proto l f m u a =
    let other : (sess.local_ssrc == id) ≡ false = ground arith in
    rw (other, f, m, u, a) (refl, refl, refl, new_source-pohead g id recfrom proto)
