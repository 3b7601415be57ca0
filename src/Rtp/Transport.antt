-- ===== src/Rtp/Transport.antt =====
-- The transport of an RTP session, `rtp_transport` of src/nemesi/rtp.h, and the setting of its
-- options, rtp_transport_set of src/rtp/rtp_transport.c with its wrappers.
--
-- The addresses, the interleaved channel and the SCTP stream of a socket are a union. Here it is the
-- two addresses as bytes: the channel is the first byte of the source address, and the stream its
-- first two, the low one first. A host is taken on which sa_family_t has 16 bits and AF_INET6 is 10.
pub mod Get
pub mod Wrappers
pub mod RoundTrip
mod Examples
use libnemesi.Common.{
  ℕ, suc, ◌+◌, ◌/◌, ◌%◌, ◌*◌, Bool, true, false, Option, none, some, List, [], ◌∷◌, ◌++◌, ◌==◌,
  if◌then◌else◌, take, drop, length,
}
use libnemesi.Common.Int.{ℤ}
use libnemesi.Rtsp.Session.{SockType}

-- What the functions return: RTP_TRANSPORT_SET, RTP_TRANSPORT_NOTSET, RTP_TRANSPORT_ERR.
pub data Ret : Type 0 where
  is_set not_set err : Ret

-- `enum deliveries`
pub data Deliveries : Type 0 where
  unicast multicast : Deliveries

-- `enum modes`
pub data Modes : Type 0 where
  play_mode record_mode : Modes

-- `nms_transport`, less its buffer; the ports at the socket are those of the socket library. An
-- address is the 20 bytes of its `nms_addr`.
pub record NmsTransport : Type 0 where
  pub local_port : ℕ
  pub remote_port : ℕ
  pub srcaddr : List ℕ
  pub dstaddr : List ℕ
  pub multicast_port : ℕ

-- `rtp_transport`
pub record RtpTransport : Type 0 where
  pub spec : List ℕ
  pub ssrc : ℕ
  pub type : SockType
  pub mode : Modes
  pub append : ℤ
  pub layers : ℤ
  pub ttl : ℤ
  pub delivery : Deliveries
  pub rtp : NmsTransport
  pub rtcp : NmsTransport

-- The options, `RTP_TRANSPORT_...`; `other` is a number that is none of them.
pub data Par : Type 0 where
  spec socktype delivery srcaddr srcaddrstr dstaddr dstaddrstr layers mode append ttl : Par
  mcsrtp mcsrtcp mcsports clirtp clirtcp cliports srvrtp srvrtcp srvports : Par
  ilvdrtp ilvdrtcp interleaved streamrtp streamrtcp streams ssrc : Par
  other : ℕ → Par

-- What the pointer to an option's value points at.
abbrev pub ValueOf : Par → Type 0
ValueOf Par.spec = List ℕ
ValueOf socktype = SockType
ValueOf Par.delivery = Deliveries
ValueOf Par.srcaddr = List ℕ
ValueOf srcaddrstr = List ℕ
ValueOf Par.dstaddr = List ℕ
ValueOf dstaddrstr = List ℕ
ValueOf Par.layers = ℤ
ValueOf Par.mode = Modes
ValueOf Par.append = ℤ
ValueOf Par.ttl = ℤ
ValueOf mcsrtp = ℕ
ValueOf mcsrtcp = ℕ
ValueOf mcsports = ℕ × ℕ
ValueOf clirtp = ℕ
ValueOf clirtcp = ℕ
ValueOf cliports = ℕ × ℕ
ValueOf srvrtp = ℕ
ValueOf srvrtcp = ℕ
ValueOf srvports = ℕ × ℕ
ValueOf ilvdrtp = ℕ
ValueOf ilvdrtcp = ℕ
ValueOf interleaved = ℕ × ℕ
ValueOf streamrtp = ℕ
ValueOf streamrtcp = ℕ
ValueOf streams = ℕ × ℕ
ValueOf Par.ssrc = ℕ
ValueOf (other n) = ℕ

-- The bytes `xs` put over those at `i`.
abbrev pub put_bytes : ℕ → List ℕ → List ℕ → List ℕ
put_bytes i xs a = take i a ++ xs ++ drop (i + length xs) a

-- What inet_pton does: it has converted the text, or the text is no address, or the family is
-- not known to it.
pub data Pton : Type 0 where
  converted : List ℕ → Pton
  invalid unsupported : Pton

-- `sa_family_t`, the low byte first.
abbrev pub family_bytes : ℕ → List ℕ
family_bytes f = f % 256 ∷ f / 256 ∷ []

unfoldable pub convert6 : Pton → List ℕ → Bool × List ℕ
convert6 (converted xs) a = (true, put_bytes 0 (family_bytes 10) (put_bytes 4 xs a))
convert6 invalid a = (false, a)
convert6 unsupported a = (true, a)

unfoldable pub convert4 : Pton → Pton → List ℕ → Bool × List ℕ
unfolding convert6
convert4 (converted xs) p6 a = (true, put_bytes 0 (family_bytes 2) (put_bytes 4 xs a))
convert4 invalid p6 a = convert6 p6 a
convert4 unsupported p6 a = convert6 p6 a

-- `true` where the function returns 0. It does so also where the second inet_pton returns -1.
unfoldable pub convert_addr_str :
    (List ℕ → Pton) → (List ℕ → Pton) → List ℕ → List ℕ → Bool × List ℕ
unfolding convert4
convert_addr_str pton4 pton6 address a =
    convert4 (pton4 address) (pton6 address) (put_bytes 0 (family_bytes 0) a)

-- The channel and the stream in the union.
abbrev pub set_ilvd : ℕ → NmsTransport → NmsTransport
set_ilvd v h = record h { srcaddr = put_bytes 0 (v % 256 ∷ []) h.srcaddr }

abbrev pub set_stream : ℕ → NmsTransport → NmsTransport
set_stream v h = record h { srcaddr = put_bytes 0 (family_bytes v) h.srcaddr }

abbrev pub ret_of : Bool → Ret
ret_of b = if b then is_set else not_set

module _ (pton4 pton6 : List ℕ → Pton) where
  -- The switch over the options that need a value.
  unfoldable pub assign : (p : Par) → ValueOf p → RtpTransport → Ret × RtpTransport
  unfolding convert_addr_str
  assign Par.spec v t = (not_set, t)
  assign socktype v t = (is_set, record t { type = v })
  assign Par.delivery v t = (is_set, record t { delivery = v })
  assign Par.srcaddr v t = (is_set, record t { rtp = record (t.rtp) { srcaddr = v } })
  assign srcaddrstr v t =
      let (ok, a) = convert_addr_str pton4 pton6 v t.rtp.srcaddr in
      (ret_of ok, record t { rtp = record (t.rtp) { srcaddr = a } })
  assign Par.dstaddr v t = (is_set, record t { rtp = record (t.rtp) { dstaddr = v } })
  assign dstaddrstr v t =
      let (ok, a) = convert_addr_str pton4 pton6 v t.rtp.dstaddr in
      (ret_of ok, record t { rtp = record (t.rtp) { dstaddr = a } })
  assign Par.layers v t = (is_set, record t { layers = v })
  assign Par.mode v t = (is_set, record t { mode = v })
  assign Par.append v t = (is_set, record t { append = v })
  assign Par.ttl v t = (is_set, record t { ttl = v })
  assign mcsrtp v t = (is_set, record t { rtp = record (t.rtp) { multicast_port = v } })
  assign mcsrtcp v t = (is_set, record t { rtcp = record (t.rtcp) { multicast_port = v } })
  assign mcsports (v, w) t = (
    is_set,
    record t {
      rtp = record (t.rtp) { multicast_port = v };
      rtcp = record (t.rtcp) { multicast_port = w };
    },
  )
  assign clirtp v t = (is_set, record t { rtp = record (t.rtp) { local_port = v } })
  assign clirtcp v t = (is_set, record t { rtcp = record (t.rtcp) { local_port = v } })
  assign cliports (v, w) t = (
    is_set,
    record t { rtp = record (t.rtp) { local_port = v }; rtcp = record (t.rtcp) { local_port = w } },
  )
  assign srvrtp v t = (is_set, record t { rtp = record (t.rtp) { remote_port = v } })
  assign srvrtcp v t = (is_set, record t { rtcp = record (t.rtcp) { remote_port = v } })
  assign srvports (v, w) t = (
    is_set,
    record t {
      rtp = record (t.rtp) { remote_port = v };
      rtcp = record (t.rtcp) { remote_port = w };
    },
  )
  assign ilvdrtp v t = (is_set, record t { rtp = set_ilvd v t.rtp })
  assign ilvdrtcp v t = (is_set, record t { rtcp = set_ilvd v t.rtcp })
  assign interleaved (v, w) t =
      (is_set, record t { rtp = set_ilvd v t.rtp; rtcp = set_ilvd w t.rtcp })
  assign streamrtp v t = (is_set, record t { rtp = set_stream v t.rtp })
  assign streamrtcp v t = (is_set, record t { rtcp = set_stream v t.rtcp })
  assign streams (v, w) t =
      (is_set, record t { rtp = set_stream v t.rtp; rtcp = set_stream w t.rtcp })
  assign Par.ssrc v t = (is_set, record t { ssrc = v })
  assign (other n) v t = (not_set, t)

  -- `none` is a value of NULL.
  unfoldable pub rtp_transport_set :
      (p : Par) → Option (ValueOf p) → RtpTransport → Ret × RtpTransport
  unfolding assign
  rtp_transport_set p none t = (not_set, t)
  rtp_transport_set p (some v) t = assign p v t
