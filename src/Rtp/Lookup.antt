-- ===== src/Rtp/Lookup.antt =====
-- The sources of a session, src/rtp/rtp_ssrc_queue.c: rtp_ssrc_init and rtcp_to_connect. Sources stand in a store, and a pointer to one is its place
-- there; the queue of known sources is the list of their places from its head on.
pub mod Check
pub mod Known
pub mod Collision
mod Examples
use libnemesi.Common.{
  ℕ, ◌+◌, Bool, true, false, ◌&&◌, not, Option, none, some, List, [], ◌∷◌, ◌++◌, ltb, ◌==◌,
  if◌then◌else◌, length, get_or, set, replicate,
}
use libnemesi.Common.Int.{pos}
use libnemesi.Bufferpool.{bp_max_size}
use libnemesi.Playout.{PlayoutBuff, zero_item, poinit}
use libnemesi.Utils.Address.{
  NmsSockaddr, NmsAddr, Compared, equal, err_size, err_family, err_addr, err_port,
  sockaddr_get_nms_addr, sockaddr_cmp, nms_addr_cmp,
}

-- `enum rtp_protos`
pub data Proto : Type 0 where
  rtp rtcp : Proto

-- The fields of `rtp_ssrc` that the lookup uses. An address whose `addr` is NULL is `none`.
pub record Source : Type 0 where
  pub ssrc : ℕ
  pub rtp_from : Option NmsSockaddr
  pub rtcp_from : Option NmsSockaddr
  pub rtcp_to : Option NmsSockaddr
  pub no_rtcp : Bool
  pub po : PlayoutBuff

-- `struct rtp_conflict`
pub record Conflict : Type 0 where
  pub transaddr : Option NmsSockaddr
  pub time : ℕ

-- The fields of `rtp_session` that the lookup uses. `is_udp` is `transport.type == UDP`, `srcaddr`
-- the address of the RTSP session, and `remote_port` that of its RTCP socket.
pub record Session : Type 0 where
  pub local_ssrc : ℕ
  pub transport_ssrc : ℕ
  pub sources : List Source
  pub ssrc_queue : List ℕ
  pub conf_queue : List Conflict
  pub is_udp : Bool
  pub srcaddr : NmsAddr
  pub remote_port : ℕ

-- What the system gives during one call: whether each malloc succeeds, the addresses of the two
-- sockets, whether an address has a name, a random number, the time, and what the pthread calls of
-- poinit return.
pub record Given : Type 0 where
  pub mem_src : Bool
  pub mem_from : Bool
  pub mem_to : Bool
  pub mem_conf : Bool
  pub mem_conf_addr : Bool
  pub rtp_sockname : NmsSockaddr
  pub rtcp_sockname : NmsSockaddr
  pub has_name : NmsAddr → Bool
  pub random : ℕ
  pub now : ℕ
  pub thread_errs : ℕ × ℕ × ℕ

-- `nms_sockaddr_dup`, which leaves NULL where malloc fails.
unfoldable pub nms_sockaddr_dup : Bool → NmsSockaddr → Option NmsSockaddr
nms_sockaddr_dup mem src = if mem then some src else none

-- A playout buffer after calloc.
unfoldable pub zero_po : PlayoutBuff
zero_po = record {
  pobuff = replicate bp_max_size zero_item;
  pocount = pos 0;
  pohead = some 0;
  potail = some 0;
  cycles = 0;
}

-- The source, and what the function returns: 0, or 1 on an error.
unfoldable pub rtcp_to_connect : Given → Source → NmsAddr → ℕ → Source × ℕ
unfolding nms_sockaddr_dup
rtcp_to_connect g s remoteaddr port =
    if not (ltb 0 port)
    then (s, 1)
    else if not (g.has_name remoteaddr)
    then (record s { no_rtcp = true }, 1)
    else (record s { rtcp_to = nms_sockaddr_dup g.mem_to g.rtcp_sockname }, 0)

-- The new source before its transport address is set. The memory of its playout buffer is not
-- checked by the code and taken as given.
unfoldable pub new_source : Given → ℕ → NmsSockaddr → Proto → Source
unfolding nms_sockaddr_dup zero_po
new_source g ssrc recfrom rtp = record {
  ssrc = ssrc;
  rtp_from = nms_sockaddr_dup g.mem_from recfrom;
  rtcp_from = none;
  rtcp_to = none;
  no_rtcp = false;
  po = zero_po;
}
new_source g ssrc recfrom rtcp = record {
  ssrc = ssrc;
  rtp_from = none;
  rtcp_from = nms_sockaddr_dup g.mem_from recfrom;
  rtcp_to = none;
  no_rtcp = false;
  po = zero_po;
}

-- The choice of the address that RTCP goes to. rtcp_to_connect never returns a negative number.
unfoldable pub choose_to : Given → Session → Source → NmsAddr → Compared → Proto → Source
unfolding rtcp_to_connect
choose_to g sess s a equal proto = (rtcp_to_connect g s sess.srcaddr sess.remote_port).0
choose_to g sess s a err rtcp = (rtcp_to_connect g s a sess.remote_port).0
choose_to g sess s a err rtp = s

-- The rest of rtp_ssrc_init: the source, and whether it returns 0.
unfoldable pub set_to : Given → Session → Source → NmsSockaddr → Proto → Source × Bool
unfolding choose_to
set_to g sess s recfrom proto =
    if not sess.is_udp then (s, true) else elim (sockaddr_get_nms_addr recfrom.addr) [
      | none ↦ (s, false)
      | some a ↦ (choose_to g sess s a (nms_addr_cmp a sess.srcaddr) proto, true)
    ]

-- What a function leaves: whether it returns 0, `*stm_src`, and the session.
pub record Inited : Type 0 where
  pub ok : Bool
  pub stm_src : Option ℕ
  pub sess : Session

-- The new source stays in the queue also where the function fails after it has put it there.
unfoldable pub rtp_ssrc_init : Given → Session → ℕ → NmsSockaddr → Proto → Inited
unfolding set_to new_source
rtp_ssrc_init g sess ssrc recfrom proto =
    let (s, ok) = set_to g sess (new_source g ssrc recfrom proto) recfrom proto in
    if not g.mem_src then record { ok = false; stm_src = none; sess = sess } else record {
      ok = ok;
      stm_src = some (length sess.sources);
      sess = record sess {
        sources = sess.sources ++ (s ∷ []);
        ssrc_queue = length sess.sources ∷ sess.ssrc_queue;
      };
    }
