-- ===== src/Rtp/Lookup/Examples.antt =====
-- The theorems on the lookup of sources at a session without sources.
use libnemesi.Common.{ℕ, ◌≡◌, ◌↔◌, refl, true, ◌&&◌, none, some, [], if◌then◌else◌, arith}
use libnemesi.Utils.Address.{
  NmsSockaddr, in4, inet, IsInet, equal, sockaddr_cmp, sockaddr_cmp_lem, same_family, sock_cmp_addr,
  sock_cmp_port, differ_addr, differ_port,
}
use libnemesi.Rtp.Lookup.{rtp, Session, Given}
use libnemesi.Rtp.Lookup.Check.{
  ssrc_new, ssrc_known, ssrc_collision, find, differs, touch, sockname, source_at, rtp_ssrc_check,
}
use libnemesi.Rtp.Lookup.Known.{IsMade, rtp_ssrc_check-twice}
use libnemesi.Rtp.Lookup.Collision.{IsStranger, rtp_ssrc_check-forgets}

abbrev own : NmsSockaddr
own = record { addr = in4 1 5004; addr_len = 16 }

abbrev sender : NmsSockaddr
sender = record { addr = in4 2 6000; addr_len = 16 }

abbrev given : Given
given = record {
  mem_src = true;
  mem_from = true;
  mem_to = true;
  mem_conf = true;
  mem_conf_addr = true;
  rtp_sockname = own;
  rtcp_sockname = own;
  has_name = λ a. true;
  random = 77;
  now = 0;
  thread_errs = (0, 0, 0);
}

abbrev session : Session
session = record {
  local_ssrc = 5;
  transport_ssrc = 5;
  sources = [];
  ssrc_queue = [];
  conf_queue = [];
  is_udp = true;
  srcaddr = inet 2;
  remote_port = 6001;
}

sockaddr_cmp_example : (sockaddr_cmp own own ≡ equal) ↔ ((own ≡ own) × IsInet own.addr)
sockaddr_cmp_example = sockaddr_cmp_lem own own

rtp_ssrc_check-twice_example :
    let r = rtp_ssrc_check given session 9 sender rtp in
    let q = rtp_ssrc_check given r.sess 9 own rtp in
    (r.code ≡ ssrc_new)
    × (r.stm_src ≡ some 0)
    × IsMade given session 9 sender (source_at r.sess 0)
    × (q.stm_src ≡ some 0)
    × (q.code ≡ (if true && differs (some sender) own then ssrc_collision else ssrc_known))
unfolding find
rtp_ssrc_check-twice_example =
    rtp_ssrc_check-twice given session 9 sender given own (omega arith) refl refl refl tt

session-IsStranger : IsStranger given session sender rtp
unfolding differs sockname touch sockaddr_cmp same_family sock_cmp_addr sock_cmp_port differ_addr
    differ_port
session-IsStranger = record { is_udp = refl; apart = refl; unknown = refl }

rtp_ssrc_check-forgets_example :
    let r = rtp_ssrc_check given session 5 sender rtp in
    let r2 = rtp_ssrc_check (record given { random = 78 }) r.sess r.sess.local_ssrc sender rtp in
    (r.sess.local_ssrc ≡ 77)
    × ((t : ℕ) → touch sender t r.sess.conf_queue ≡ none)
    × (r2.sess.local_ssrc ≡ 78)
unfolding sockname
rtp_ssrc_check-forgets_example =
    rtp_ssrc_check-forgets given (record given { random = 78 }) session sender rtp
      session-IsStranger (session-IsStranger.apart)
