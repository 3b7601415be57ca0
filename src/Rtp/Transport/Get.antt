-- ===== src/Rtp/Transport/Get.antt =====
-- Reading the options of a transport, rtp_transport_get of src/rtp/rtp_transport.c, and nms_addr_ntop
-- of src/utils/transport.c.
use libnemesi.Common.{
  ℕ, zero, suc, ◌+◌, ◌-◌, ◌*◌, Bool, true, false, Option, none, some, List, ◌==◌, if◌then◌else◌,
  take, drop, get_or, not,
}
use libnemesi.Common.Int.{ℤ, pos, negsuc}
use libnemesi.Rtp.Transport.{
  Ret, is_set, not_set, err, NmsTransport, RtpTransport, Par, ValueOf, socktype, srcaddrstr,
  dstaddrstr, mcsrtp, mcsrtcp, mcsports, clirtp, clirtcp, cliports, srvrtp, srvrtcp, srvports,
  ilvdrtp, ilvdrtcp, interleaved, streamrtp, streamrtcp, streams, other, ret_of, put_bytes,
}

abbrev pub byte_at : List ℕ → ℕ → ℕ
byte_at a i = get_or a i 0

-- `family` of an address, the interleaved channel and the stream.
abbrev pub family : List ℕ → ℕ
family a = byte_at a 0 + 256 * byte_at a 1

abbrev pub ilvd : NmsTransport → ℕ
ilvd h = byte_at h.srcaddr 0

abbrev pub stream : NmsTransport → ℕ
stream h = family h.srcaddr

abbrev pub is_zero : ℤ → Bool
is_zero (pos zero) = true
is_zero (pos (suc n)) = false
is_zero (negsuc n) = false

-- The value is stored, and counts as set where it is not 0.
abbrev pub unless_zero : ℕ → Ret × ℕ
unless_zero v = (ret_of (not (v == 0)), v)

abbrev pub unless_zero_int : ℤ → Ret × ℤ
unless_zero_int v = (ret_of (not (is_zero v)), v)

-- Both values are stored, the second one only where the first one is not 0.
abbrev pub both : ℕ → ℕ → ℕ × ℕ → Ret × (ℕ × ℕ)
both v w old = if v == 0 then (not_set, (v, old.1)) else (ret_of (not (w == 0)), (v, w))

-- memcpy of an address into a buffer of `len` bytes.
abbrev pub copy_addr : ℕ → List ℕ → List ℕ → List ℕ
copy_addr len a old = put_bytes 0 (take len a) old

-- What inet_ntop makes of the bytes of an address, for a buffer of some size, is an argument, and so
-- is what snprintf does with an unknown family.
module _ (ntop : ℕ → List ℕ → ℕ → Option (List ℕ)) (printed : ℕ → ℕ → List ℕ) where
  unfoldable pub nms_addr_ntop : List ℕ → ℕ → Option (List ℕ)
  nms_addr_ntop a len =
      if family a == 2
      then ntop 2 (take 4 (drop 4 a)) len
      else if family a == 10
      then ntop 10 (take 16 (drop 4 a)) len
      else some (printed (family a) len)

  unfoldable pub address_text : Option (List ℕ) → List ℕ → Ret × List ℕ
  address_text none old = (not_set, old)
  address_text (some s) old = (is_set, s)

  -- The switch: what it returns, and what the buffer of `len` bytes, which held `old`, then holds.
  unfoldable pub fetch : (p : Par) → ValueOf p → ℕ → RtpTransport → Ret × ValueOf p
  unfolding nms_addr_ntop address_text
  fetch Par.spec old len t = (is_set, take (len - 1) t.spec)
  fetch socktype old len t = (is_set, t.type)
  fetch Par.delivery old len t = (is_set, t.delivery)
  fetch Par.srcaddr old len t = (is_set, copy_addr len t.rtp.srcaddr old)
  fetch srcaddrstr old len t = address_text (nms_addr_ntop t.rtp.srcaddr len) old
  fetch Par.dstaddr old len t = (is_set, copy_addr len t.rtp.dstaddr old)
  fetch dstaddrstr old len t = address_text (nms_addr_ntop t.rtp.dstaddr len) old
  fetch Par.layers old len t = unless_zero_int t.layers
  fetch Par.mode old len t = (is_set, t.mode)
  fetch Par.append old len t = unless_zero_int t.append
  fetch Par.ttl old len t = unless_zero_int t.ttl
  fetch mcsrtp old len t = unless_zero t.rtp.multicast_port
  fetch mcsrtcp old len t = unless_zero t.rtcp.multicast_port
  fetch mcsports old len t = both t.rtp.multicast_port t.rtcp.multicast_port old
  fetch clirtp old len t = unless_zero t.rtp.local_port
  fetch clirtcp old len t = unless_zero t.rtcp.local_port
  fetch cliports old len t = both t.rtp.local_port t.rtcp.local_port old
  fetch srvrtp old len t = unless_zero t.rtp.remote_port
  fetch srvrtcp old len t = unless_zero t.rtcp.remote_port
  fetch srvports old len t = both t.rtp.remote_port t.rtcp.remote_port old
  fetch ilvdrtp old len t = (is_set, ilvd t.rtp)
  fetch ilvdrtcp old len t = (is_set, ilvd t.rtcp)
  fetch interleaved old len t = (is_set, (ilvd t.rtp, ilvd t.rtcp))
  fetch streamrtp old len t = unless_zero (stream t.rtp)
  fetch streamrtcp old len t = unless_zero (stream t.rtcp)
  fetch streams old len t = both (stream t.rtp) (stream t.rtcp) old
  fetch Par.ssrc old len t = unless_zero t.ssrc
  fetch (other n) old len t = (not_set, old)

  abbrev pub read : (p : Par) → Ret × ValueOf p → Ret × Option (ValueOf p)
  read p (r, v) = (r, some v)

  -- A buffer of NULL is `none`. The setting of errno is left out.
  unfoldable pub rtp_transport_get :
      (p : Par) → Option (ValueOf p) → ℕ → RtpTransport → Ret × Option (ValueOf p)
  unfolding fetch
  rtp_transport_get p none len t = (err, none)
  rtp_transport_get p (some old) len t = read p (fetch p old len t)
