-- ===== src/Rtp/Transport/Wrappers.antt =====
-- The wrappers of src/rtp/rtp_transport.c: an option by a function of its own.
use libnemesi.Common.{ℕ, Option, some, List}
use libnemesi.Common.Int.{ℤ}
use libnemesi.Rtp.Transport.{
  Ret, Deliveries, Modes, RtpTransport, Par, ValueOf, srcaddrstr, dstaddrstr, mcsrtp, mcsrtcp,
  mcsports, clirtp, clirtcp, cliports, srvrtp, srvrtcp, srvports, ilvdrtp, ilvdrtcp, interleaved,
  streamrtp, streamrtcp, streams, Pton, rtp_transport_set,
}
use libnemesi.Rtp.Transport.Get.{ilvd, stream, rtp_transport_get}

unfoldable pub rtp_get_spec : RtpTransport → List ℕ
rtp_get_spec t = t.spec

unfoldable pub rtp_get_delivery : RtpTransport → Deliveries
rtp_get_delivery t = t.delivery

unfoldable pub rtp_get_srcaddr : RtpTransport → List ℕ
rtp_get_srcaddr t = t.rtp.srcaddr

unfoldable pub rtp_get_dstaddr : RtpTransport → List ℕ
rtp_get_dstaddr t = t.rtp.dstaddr

unfoldable pub rtp_get_mode : RtpTransport → Modes
rtp_get_mode t = t.mode

unfoldable pub rtp_get_layers : RtpTransport → ℤ
rtp_get_layers t = t.layers

unfoldable pub rtp_get_append : RtpTransport → ℤ
rtp_get_append t = t.append

unfoldable pub rtp_get_ttl : RtpTransport → ℤ
rtp_get_ttl t = t.ttl

unfoldable pub rtp_get_mcsrtpport : RtpTransport → ℕ
rtp_get_mcsrtpport t = t.rtp.multicast_port

unfoldable pub rtp_get_mcsrtcpport : RtpTransport → ℕ
rtp_get_mcsrtcpport t = t.rtcp.multicast_port

unfoldable pub rtp_get_srvrtpport : RtpTransport → ℕ
rtp_get_srvrtpport t = t.rtp.remote_port

unfoldable pub rtp_get_srvrtcpport : RtpTransport → ℕ
rtp_get_srvrtcpport t = t.rtcp.remote_port

unfoldable pub rtp_get_clirtpport : RtpTransport → ℕ
rtp_get_clirtpport t = t.rtp.local_port

unfoldable pub rtp_get_clirtcpport : RtpTransport → ℕ
rtp_get_clirtcpport t = t.rtcp.local_port

unfoldable pub rtp_get_ilvdrtp : RtpTransport → ℕ
rtp_get_ilvdrtp t = ilvd t.rtp

unfoldable pub rtp_get_ilvdrtcp : RtpTransport → ℕ
rtp_get_ilvdrtcp t = ilvd t.rtcp

unfoldable pub rtp_get_rtpstream : RtpTransport → ℕ
rtp_get_rtpstream t = stream t.rtp

unfoldable pub rtp_get_rtcpstream : RtpTransport → ℕ
rtp_get_rtcpstream t = stream t.rtcp

unfoldable pub rtp_get_ssrc : RtpTransport → ℕ
rtp_get_ssrc t = t.ssrc

-- The size of an array that is a parameter is that of a pointer.
abbrev pointer_size : ℕ
pointer_size = 8

module _ (ntop : ℕ → List ℕ → ℕ → Option (List ℕ)) (printed : ℕ → ℕ → List ℕ) where
  unfoldable pub rtp_get_srcaddrstr : Option (List ℕ) → ℕ → RtpTransport → Ret × Option (List ℕ)
  unfolding rtp_transport_get
  rtp_get_srcaddrstr old len t = rtp_transport_get ntop printed srcaddrstr old len t

  unfoldable pub rtp_get_dstaddrstr : Option (List ℕ) → ℕ → RtpTransport → Ret × Option (List ℕ)
  unfolding rtp_transport_get
  rtp_get_dstaddrstr old len t = rtp_transport_get ntop printed dstaddrstr old len t

  unfoldable pub rtp_get_mcsports : Option (ℕ × ℕ) → RtpTransport → Ret × Option (ℕ × ℕ)
  unfolding rtp_transport_get
  rtp_get_mcsports old t = rtp_transport_get ntop printed mcsports old pointer_size t

  unfoldable pub rtp_get_srvports : Option (ℕ × ℕ) → RtpTransport → Ret × Option (ℕ × ℕ)
  unfolding rtp_transport_get
  rtp_get_srvports old t = rtp_transport_get ntop printed srvports old pointer_size t

  unfoldable pub rtp_get_cliports : Option (ℕ × ℕ) → RtpTransport → Ret × Option (ℕ × ℕ)
  unfolding rtp_transport_get
  rtp_get_cliports old t = rtp_transport_get ntop printed cliports old pointer_size t

  unfoldable pub rtp_get_interleaved : Option (ℕ × ℕ) → RtpTransport → Ret × Option (ℕ × ℕ)
  unfolding rtp_transport_get
  rtp_get_interleaved old t = rtp_transport_get ntop printed interleaved old pointer_size t

  unfoldable pub rtp_get_streams : Option (ℕ × ℕ) → RtpTransport → Ret × Option (ℕ × ℕ)
  unfolding rtp_transport_get
  rtp_get_streams old t = rtp_transport_get ntop printed streams old pointer_size t

module _ (pton4 pton6 : List ℕ → Pton) where
  unfoldable pub rtp_set_delivery : ValueOf Par.delivery → RtpTransport → Ret × RtpTransport
  unfolding rtp_transport_set
  rtp_set_delivery v t = rtp_transport_set pton4 pton6 Par.delivery (some v) t

  unfoldable pub rtp_set_srcaddrstr :
      Option (ValueOf srcaddrstr) → RtpTransport → Ret × RtpTransport
  unfolding rtp_transport_set
  rtp_set_srcaddrstr v t = rtp_transport_set pton4 pton6 srcaddrstr v t

  unfoldable pub rtp_set_srcaddr : Option (ValueOf Par.srcaddr) → RtpTransport → Ret × RtpTransport
  unfolding rtp_transport_set
  rtp_set_srcaddr v t = rtp_transport_set pton4 pton6 Par.srcaddr v t

  unfoldable pub rtp_set_dstaddrstr :
      Option (ValueOf dstaddrstr) → RtpTransport → Ret × RtpTransport
  unfolding rtp_transport_set
  rtp_set_dstaddrstr v t = rtp_transport_set pton4 pton6 dstaddrstr v t

  unfoldable pub rtp_set_dstaddr : Option (ValueOf Par.dstaddr) → RtpTransport → Ret × RtpTransport
  unfolding rtp_transport_set
  rtp_set_dstaddr v t = rtp_transport_set pton4 pton6 Par.dstaddr v t

  unfoldable pub rtp_set_layers : ValueOf Par.layers → RtpTransport → Ret × RtpTransport
  unfolding rtp_transport_set
  rtp_set_layers v t = rtp_transport_set pton4 pton6 Par.layers (some v) t

  unfoldable pub rtp_set_mode : ValueOf Par.mode → RtpTransport → Ret × RtpTransport
  unfolding rtp_transport_set
  rtp_set_mode v t = rtp_transport_set pton4 pton6 Par.mode (some v) t

  unfoldable pub rtp_set_append : ValueOf Par.append → RtpTransport → Ret × RtpTransport
  unfolding rtp_transport_set
  rtp_set_append v t = rtp_transport_set pton4 pton6 Par.append (some v) t

  unfoldable pub rtp_set_ttl : ValueOf Par.ttl → RtpTransport → Ret × RtpTransport
  unfolding rtp_transport_set
  rtp_set_ttl v t = rtp_transport_set pton4 pton6 Par.ttl (some v) t

  unfoldable pub rtp_set_mcsports : Option (ValueOf mcsports) → RtpTransport → Ret × RtpTransport
  unfolding rtp_transport_set
  rtp_set_mcsports v t = rtp_transport_set pton4 pton6 mcsports v t

  unfoldable pub rtp_set_mcsrtpport : ValueOf mcsrtp → RtpTransport → Ret × RtpTransport
  unfolding rtp_transport_set
  rtp_set_mcsrtpport v t = rtp_transport_set pton4 pton6 mcsrtp (some v) t

  unfoldable pub rtp_set_mcsrtcpport : ValueOf mcsrtcp → RtpTransport → Ret × RtpTransport
  unfolding rtp_transport_set
  rtp_set_mcsrtcpport v t = rtp_transport_set pton4 pton6 mcsrtcp (some v) t

  unfoldable pub rtp_set_srvports : Option (ValueOf srvports) → RtpTransport → Ret × RtpTransport
  unfolding rtp_transport_set
  rtp_set_srvports v t = rtp_transport_set pton4 pton6 srvports v t

  unfoldable pub rtp_set_srvrtpport : ValueOf srvrtp → RtpTransport → Ret × RtpTransport
  unfolding rtp_transport_set
  rtp_set_srvrtpport v t = rtp_transport_set pton4 pton6 srvrtp (some v) t

  unfoldable pub rtp_set_srvrtcpport : ValueOf srvrtcp → RtpTransport → Ret × RtpTransport
  unfolding rtp_transport_set
  rtp_set_srvrtcpport v t = rtp_transport_set pton4 pton6 srvrtcp (some v) t

  unfoldable pub rtp_set_cliports : Option (ValueOf cliports) → RtpTransport → Ret × RtpTransport
  unfolding rtp_transport_set
  rtp_set_cliports v t = rtp_transport_set pton4 pton6 cliports v t

  unfoldable pub rtp_set_clirtpport : ValueOf clirtp → RtpTransport → Ret × RtpTransport
  unfolding rtp_transport_set
  rtp_set_clirtpport v t = rtp_transport_set pton4 pton6 clirtp (some v) t

  unfoldable pub rtp_set_clirtcpport : ValueOf clirtcp → RtpTransport → Ret × RtpTransport
  unfolding rtp_transport_set
  rtp_set_clirtcpport v t = rtp_transport_set pton4 pton6 clirtcp (some v) t

  unfoldable pub rtp_set_ilvdrtp : ValueOf ilvdrtp → RtpTransport → Ret × RtpTransport
  unfolding rtp_transport_set
  rtp_set_ilvdrtp v t = rtp_transport_set pton4 pton6 ilvdrtp (some v) t

  unfoldable pub rtp_set_ilvdrtcp : ValueOf ilvdrtcp → RtpTransport → Ret × RtpTransport
  unfolding rtp_transport_set
  rtp_set_ilvdrtcp v t = rtp_transport_set pton4 pton6 ilvdrtcp (some v) t

  unfoldable pub rtp_set_interleaved :
      Option (ValueOf interleaved) → RtpTransport → Ret × RtpTransport
  unfolding rtp_transport_set
  rtp_set_interleaved v t = rtp_transport_set pton4 pton6 interleaved v t

  unfoldable pub rtp_set_rtpstream : ValueOf streamrtp → RtpTransport → Ret × RtpTransport
  unfolding rtp_transport_set
  rtp_set_rtpstream v t = rtp_transport_set pton4 pton6 streamrtp (some v) t

  unfoldable pub rtp_set_rtcpstream : ValueOf streamrtcp → RtpTransport → Ret × RtpTransport
  unfolding rtp_transport_set
  rtp_set_rtcpstream v t = rtp_transport_set pton4 pton6 streamrtcp (some v) t

  unfoldable pub rtp_set_streams : Option (ValueOf streams) → RtpTransport → Ret × RtpTransport
  unfolding rtp_transport_set
  rtp_set_streams v t = rtp_transport_set pton4 pton6 streams v t

  unfoldable pub rtp_set_ssrc : ValueOf Par.ssrc → RtpTransport → Ret × RtpTransport
  unfolding rtp_transport_set
  rtp_set_ssrc v t = rtp_transport_set pton4 pton6 Par.ssrc (some v) t
