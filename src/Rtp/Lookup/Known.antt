-- ===== src/Rtp/Lookup/Known.antt =====
-- A source is found again under its SSRC.
use libnemesi.Common.{
  ℕ, ◌<◌, ◌≡◌, ◌≢◌, refl, sym, ap, ◌∙◌, subst, true, false, ◌&&◌, none, some, List, [], ◌∷◌, ◌++◌,
  arith, ◌==◌, if◌then◌else◌, length, get_or, get_or-set_self,
}
use libnemesi.Playout.{PlayoutBuff, poinit}
use libnemesi.Utils.Address.{NmsSockaddr, NmsAddr, IsInet, sockaddr_get_nms_addr}
use libnemesi.Rtp.Lookup.{
  Proto, rtp, Source, Session, Given, nms_sockaddr_dup, rtcp_to_connect, choose_to, set_to,
  new_source, rtp_ssrc_init,
}
use libnemesi.Rtp.Lookup.Check.{
  ssrc_known, ssrc_new, ssrc_collision, no_source, source_at, find, init_po, check_new, differs,
  compare, keep, check_known, rtp_ssrc_check,
}

-- What stays of a source when its transport address is set.
record IsKept (s s' : Source) : Type 0 where
  pub ssrc : s'.ssrc ≡ s.ssrc
  pub rtp_from : s'.rtp_from ≡ s.rtp_from
  pub po : s'.po ≡ s.po

connect-IsKept :
    (g : Given) (s : Source) (a : NmsAddr) (port : ℕ) → IsKept s (rtcp_to_connect g s a port).0
unfolding rtcp_to_connect
connect-IsKept g s a port = ground arith

set_to-IsKept :
    (g : Given) (sess : Session) (s : Source) (recfrom : NmsSockaddr) (proto : Proto)
    → IsKept s (set_to g sess s recfrom proto).0
unfolding set_to choose_to rtcp_to_connect
set_to-IsKept g sess s recfrom proto = ground arith

set_to-ok :
    (g : Given) (sess : Session) (s : Source) (recfrom : NmsSockaddr) (proto : Proto)
    → IsInet recfrom.addr
    → (set_to g sess s recfrom proto).1 ≡ true
unfolding set_to sockaddr_get_nms_addr
set_to-ok g sess s recfrom proto h = ground arith

get_or-length : {A : Type 0} (xs : List A) (x d : A) → get_or (xs ++ (x ∷ [])) (length xs) d ≡ x
get_or-length [] x d = refl
get_or-length (y ∷ xs) x d = get_or-length xs x d

length-snoc : {A : Type 0} (xs : List A) (x : A) → length xs < length (xs ++ (x ∷ []))
length-snoc [] x = omega arith
length-snoc (y ∷ xs) x = omega (arith, length-snoc xs x)

-- The source after poinit.
abbrev with_init : Given → Source → Source
with_init g s = record s { po = (poinit g.thread_errs.0 g.thread_errs.1 g.thread_errs.2 s.po).1 }

source_at-init_po :
    (g : Given) (sess : Session) (i : ℕ)
    → i < length sess.sources
    → source_at (init_po g sess i) i ≡ with_init g (source_at sess i)
unfolding source_at init_po
source_at-init_po g sess i h = get_or-set_self sess.sources i _ no_source h

poinit-empty :
    (a b c : ℕ) (po : PlayoutBuff)
    → ((poinit a b c po).1.pohead ≡ none) × ((poinit a b c po).1.potail ≡ none)
unfolding poinit
poinit-empty a b c po = ground arith

module _ (g : Given) (sess : Session) (ssrc : ℕ) (recfrom : NmsSockaddr) (proto : Proto) where
  -- The session with the new source in its queue, before poinit.
  abbrev queued : Session
  queued = record sess {
    sources =
        sess.sources ++ ((set_to g sess (new_source g ssrc recfrom proto) recfrom proto).0 ∷ []);
    ssrc_queue = length sess.sources ∷ sess.ssrc_queue;
  }

  check_new_eq :
      g.mem_src ≡ true
      → IsInet recfrom.addr
      → check_new g sess ssrc recfrom proto ≡ record {
        code = ssrc_new;
        stm_src = some (length sess.sources);
        sess = init_po g queued (length sess.sources);
      }
  unfolding check_new rtp_ssrc_init
  check_new_eq m h = rw (m, set_to-ok g sess (new_source g ssrc recfrom proto) recfrom proto h) refl

  source_at-queued :
      source_at queued (length sess.sources)
      ≡ (set_to g sess (new_source g ssrc recfrom proto) recfrom proto).0
  unfolding source_at
  source_at-queued = get_or-length sess.sources _ no_source

find-head :
    (sess : Session) (i : ℕ) (queue : List ℕ) (ssrc : ℕ)
    → (source_at sess i).ssrc ≡ ssrc
    → find sess (i ∷ queue) ssrc ≡ some i
unfolding find
find-head sess i queue ssrc e = ground arith

-- A source with an RTP address is known by it, or collides.
check_known-rtp :
    (g : Given) (sess : Session) (i : ℕ) (recfrom x : NmsSockaddr)
    → (source_at sess i).rtp_from ≡ some x
    → let q = check_known g sess i recfrom rtp in
      (q.stm_src ≡ some i)
      × (q.code ≡ (if sess.is_udp && differs (some x) recfrom then ssrc_collision else ssrc_known))
unfolding check_known compare keep
check_known-rtp g sess i recfrom x e = ground arith

module _ (g : Given) (sess : Session) (id : ℕ) (recfrom : NmsSockaddr) where
  -- The source as it stands after it was made for an RTP packet.
  pub record IsMade (s : Source) : Type 0 where
    pub ssrc : s.ssrc ≡ id
    pub rtp_from : s.rtp_from ≡ some recfrom
    pub pohead : s.po.pohead ≡ none
    pub potail : s.po.potail ≡ none

  made :
      g.mem_from ≡ true
      → IsMade (
          source_at
            (init_po g (queued g sess id recfrom rtp) (length sess.sources))
            (length sess.sources))
  unfolding new_source nms_sockaddr_dup
  made m =
      let n = length sess.sources in
      let s = (set_to g sess (new_source g id recfrom rtp) recfrom rtp).0 in
      let k = set_to-IsKept g sess (new_source g id recfrom rtp) recfrom rtp in
      let p = poinit-empty g.thread_errs.0 g.thread_errs.1 g.thread_errs.2 s.po in
      subst IsMade
        (sym (
          source_at-init_po g (queued g sess id recfrom rtp) n (length-snoc sess.sources s)
          ∙ ap (with_init g) (source_at-queued g sess id recfrom rtp)))
        (record {
          ssrc = k.ssrc;
          rtp_from = k.rtp_from ∙ ap (λ b. if b then some recfrom else none) m;
          pohead = p.0;
          potail = p.1;
        })

  abbrev after : Session
  after = init_po g (queued g sess id recfrom rtp) (length sess.sources)

  after-queue : after.ssrc_queue ≡ length sess.sources ∷ sess.ssrc_queue
  unfolding init_po
  after-queue = refl

  after-local : after.local_ssrc ≡ sess.local_ssrc
  unfolding init_po
  after-local = refl

  after-udp : after.is_udp ≡ sess.is_udp
  unfolding init_po
  after-udp = refl

  check_first :
      sess.local_ssrc ≢ id
      → find sess sess.ssrc_queue id ≡ none
      → g.mem_src ≡ true
      → IsInet recfrom.addr
      → rtp_ssrc_check g sess id recfrom rtp
        ≡ record { code = ssrc_new; stm_src = some (length sess.sources); sess = after }
  unfolding rtp_ssrc_check
  check_first l f m h =
      let other : (sess.local_ssrc == id) ≡ false = ground arith in
      rw (other, f) (check_new_eq g sess id recfrom rtp m h)

  check_after :
      (g2 : Given) (from2 : NmsSockaddr)
      → sess.local_ssrc ≢ id
      → g.mem_from ≡ true
      → rtp_ssrc_check g2 after id from2 rtp ≡ check_known g2 after (length sess.sources) from2 rtp
  unfolding rtp_ssrc_check
  check_after g2 from2 l mf =
      let n = length sess.sources in
      let other : (after.local_ssrc == id) ≡ false =
        ap (λ k. k == id) after-local
        ∙ (let e : (sess.local_ssrc == id) ≡ false = ground arith in e) in
      let found : find after after.ssrc_queue id ≡ some n =
        ap (λ k. find after k id) after-queue
        ∙ find-head after n sess.ssrc_queue id (made mf).ssrc in
      rw (other, found) refl

  -- An RTP packet with an SSRC that is neither this participant's nor that of a known source makes a
  -- source, given memory and an IPv4 or IPv6 sender: the source has the SSRC, the sender's address
  -- and an empty playout buffer. The next RTP packet with the SSRC finds this source. It is taken
  -- for a collision exactly when the session runs over UDP and the packet's sender is another.
  pub rtp_ssrc_check-twice :
      (g2 : Given) (from2 : NmsSockaddr)
      → sess.local_ssrc ≢ id
      → find sess sess.ssrc_queue id ≡ none
      → g.mem_src ≡ true
      → g.mem_from ≡ true
      → IsInet recfrom.addr
      → let n = length sess.sources in
        let r = rtp_ssrc_check g sess id recfrom rtp in
        let q = rtp_ssrc_check g2 r.sess id from2 rtp in
        (r.code ≡ ssrc_new)
        × (r.stm_src ≡ some n)
        × IsMade (source_at r.sess n)
        × (q.stm_src ≡ some n)
        × (q.code
            ≡ (if sess.is_udp && differs (some recfrom) from2 then ssrc_collision else ssrc_known))
  rtp_ssrc_check-twice g2 from2 l f m mf h =
      let n = length sess.sources in
      let e = check_first l f m h in
      let known = check_known-rtp g2 after n from2 recfrom (made mf).rtp_from in
      rw (e, check_after g2 from2 l mf)
        (
          refl,
          refl,
          made mf,
          known.0,
          known.1
              ∙ ap (λ u. if u && differs (some recfrom) from2 then ssrc_collision else ssrc_known)
                  after-udp,
        )
