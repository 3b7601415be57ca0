-- ===== src/Rtp/Lookup/Check.antt =====
-- The lookup of the source of a packet by its SSRC, rtp_ssrc_check of src/rtp/rtp_ssrc_queue.c.
use libnemesi.Common.{
  ℕ, Bool, true, false, ◌&&◌, not, Option, none, some, List, [], ◌∷◌, ◌==◌, if◌then◌else◌, length,
  get_or, set,
}
use libnemesi.Playout.{poinit}
use libnemesi.Utils.Address.{
  NmsSockaddr, equal, err_size, err_family, err_addr, err_port, sockaddr_get_nms_addr, sockaddr_cmp,
}
use libnemesi.Rtp.Lookup.{
  Proto, Source, Conflict, Session, Given, nms_sockaddr_dup, zero_po, rtcp_to_connect,
  rtp_ssrc_init, rtp, rtcp,
}

pub data Code : Type 0 where
  ssrc_known ssrc_new ssrc_rtpnew ssrc_rtcpnew ssrc_collision fatal : Code

pub record Checked : Type 0 where
  pub code : Code
  pub stm_src : Option ℕ
  pub sess : Session

-- A source at a place that no source has.
unfoldable pub no_source : Source
no_source = record {
  ssrc = 0;
  rtp_from = none;
  rtcp_from = none;
  rtcp_to = none;
  no_rtcp = false;
  po = zero_po;
}

unfoldable pub source_at : Session → ℕ → Source
source_at sess i = get_or sess.sources i no_source

-- The loop over the known sources.
unfoldable pub find : Session → List ℕ → ℕ → Option ℕ
unfolding source_at
find sess [] ssrc = none
find sess (i ∷ queue) ssrc =
    let rest = find sess queue ssrc in if (source_at sess i).ssrc == ssrc then some i else rest

-- poinit on the playout buffer of the source, its result unread.
unfoldable pub init_po : Given → Session → ℕ → Session
unfolding source_at
init_po g sess i =
    let s = source_at sess i in
    record sess {
      sources =
          set sess.sources i
            (record s { po = (poinit g.thread_errs.0 g.thread_errs.1 g.thread_errs.2 s.po).1 });
    }

-- A source that is not known.
unfoldable pub check_new : Given → Session → ℕ → NmsSockaddr → Proto → Checked
unfolding rtp_ssrc_init init_po
check_new g sess ssrc recfrom proto =
    let r = rtp_ssrc_init g sess ssrc recfrom proto in
    if not r.ok then record { code = fatal; stm_src = r.stm_src; sess = r.sess } else record {
      code = ssrc_new;
      stm_src = r.stm_src;
      sess = init_po g r.sess (length sess.sources);
    }

-- `sockaddr_cmp` is not 0. An address that is NULL has the length 0, which no sender's address has.
unfoldable pub differs : Option NmsSockaddr → NmsSockaddr → Bool
differs none y = true
differs (some x) y = elim (sockaddr_cmp x y) [
  | equal ↦ false
  | err_size ↦ true
  | err_family ↦ true
  | err_addr ↦ true
  | err_port ↦ true
]

-- The comparison at the end, for a source other than this participant.
unfoldable pub compare : Session → ℕ → Option NmsSockaddr → NmsSockaddr → Code → Checked
unfolding differs
compare sess i sock recfrom code =
    if sess.is_udp && differs sock recfrom
    then record { code = ssrc_collision; stm_src = some i; sess = sess }
    else record { code = code; stm_src = some i; sess = sess }

abbrev pub put : Session → ℕ → Source → Session
put sess i s = record sess { sources = set sess.sources i s }

-- An address kept, or else the sender's, and the code for each.
unfoldable pub keep : Bool → Option NmsSockaddr → NmsSockaddr → Code → Option NmsSockaddr × Code
unfolding nms_sockaddr_dup
keep mem none recfrom code = (nms_sockaddr_dup mem recfrom, code)
keep mem (some x) recfrom code = (some x, ssrc_known)

-- RTCP from a known source: `rtcp_to` is set where it is NULL; `none` if that fails.
unfoldable pub keep_to : Given → Session → Source → NmsSockaddr → Option Source
unfolding rtcp_to_connect
keep_to g sess s recfrom = elim s.rtcp_to [
  | some x ↦ some s
  | none ↦ elim (sockaddr_get_nms_addr recfrom.addr) [
    | none ↦ none
    | some a ↦ some (rtcp_to_connect g s a sess.remote_port).0
  ]
]

-- The known source at the place `i`.
unfoldable pub check_known : Given → Session → ℕ → NmsSockaddr → Proto → Checked
unfolding keep keep_to compare source_at
check_known g sess i recfrom rtp =
    let s = source_at sess i in
    let (from, code) = keep g.mem_from s.rtp_from recfrom ssrc_rtpnew in
    compare (put sess i (record s { rtp_from = from })) i from recfrom code
check_known g sess i recfrom rtcp =
    let s = source_at sess i in
    let (from, code) = keep g.mem_from s.rtcp_from recfrom ssrc_rtcpnew in
    let s1 = record s { rtcp_from = from } in
    if not sess.is_udp
    then record { code = code; stm_src = some i; sess = put sess i s1 }
    else elim (keep_to g sess s1 recfrom) [
      | none ↦ record { code = fatal; stm_src = some i; sess = put sess i s1 }
      | some s2 ↦ compare (put sess i s2) i from recfrom code
    ]

-- The search among the conflicts: the queue with the time of the first match renewed, if there is
-- one.
unfoldable pub touch : NmsSockaddr → ℕ → List Conflict → Option (List Conflict)
unfolding differs
touch recfrom now [] = none
touch recfrom now (c ∷ queue) =
    let rest : Option (List Conflict) = elim (touch recfrom now queue) [
      | none ↦ none
      | some queue2 ↦ some (c ∷ queue2)
    ] in
    if differs c.transaddr recfrom then rest else some (record c { time = now } ∷ queue)

unfoldable pub sockname : Given → Proto → NmsSockaddr
sockname g rtp = g.rtp_sockname
sockname g rtcp = g.rtcp_sockname

abbrev pub head_of : List ℕ → Option ℕ
head_of [] = none
head_of (i ∷ queue) = some i

-- A new collision of this participant's SSRC: it takes another one, and the other party becomes a
-- source under the old one.
unfoldable pub new_collision : Given → Session → ℕ → NmsSockaddr → Proto → Checked
unfolding rtp_ssrc_init init_po sockname nms_sockaddr_dup
new_collision g sess ssrc recfrom proto =
    let sess1 = record sess { local_ssrc = g.random; transport_ssrc = g.random } in
    let r = rtp_ssrc_init g sess1 ssrc recfrom proto in
    let sess2 = init_po g r.sess (length sess.sources) in
    let c : Conflict = record {
      transaddr = nms_sockaddr_dup g.mem_conf_addr (sockname g proto);
      time = g.now;
    } in
    if not g.mem_conf
    then record { code = fatal; stm_src = head_of sess.ssrc_queue; sess = sess1 }
    else if not r.ok
    then record { code = fatal; stm_src = r.stm_src; sess = r.sess }
    else record {
      code = ssrc_collision;
      stm_src = r.stm_src;
      sess = record sess2 { conf_queue = c ∷ sess2.conf_queue };
    }

-- A packet with this participant's own SSRC. `*stm_src` is the head of the queue.
unfoldable pub check_local : Given → Session → ℕ → NmsSockaddr → Proto → Checked
unfolding new_collision touch differs sockname
check_local g sess ssrc recfrom proto =
    if sess.is_udp && differs (some (sockname g proto)) recfrom
    then elim (touch recfrom g.now sess.conf_queue) [
      | some queue ↦ record {
        code = ssrc_collision;
        stm_src = head_of sess.ssrc_queue;
        sess = record sess { conf_queue = queue };
      }
      | none ↦ new_collision g sess ssrc recfrom proto
    ]
    else record { code = ssrc_collision; stm_src = head_of sess.ssrc_queue; sess = sess }

unfoldable pub rtp_ssrc_check : Given → Session → ℕ → NmsSockaddr → Proto → Checked
unfolding find check_new check_known check_local
rtp_ssrc_check g sess ssrc recfrom proto =
    if sess.local_ssrc == ssrc
    then check_local g sess ssrc recfrom proto
    else elim (find sess sess.ssrc_queue ssrc) [
      | none ↦ check_new g sess ssrc recfrom proto
      | some i ↦ check_known g sess i recfrom proto
    ]
