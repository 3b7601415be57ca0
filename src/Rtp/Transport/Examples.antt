-- ===== src/Rtp/Transport/Examples.antt =====
-- The theorems on the options of a transport at the text of an address. inet_pton is one that knows
-- this text only.
use libnemesi.Common.{ℕ, ◌≡◌, refl, inr, Option, some, List, [], ◌∷◌, replicate}
use libnemesi.Common.Int.{pos}
use libnemesi.Rtsp.Session.{udp}
use libnemesi.Rtp.Transport.{
  is_set, not_set, unicast, play_mode, NmsTransport, RtpTransport, srcaddrstr, Pton, converted,
  invalid, rtp_transport_set,
}
use libnemesi.Rtp.Transport.Get.{family, rtp_transport_get}
use libnemesi.Rtp.Transport.RoundTrip.{rtp_transport_get-set, rtp_transport_set-invalid}

abbrev half : NmsTransport
half = record {
  local_port = 5004;
  remote_port = 6970;
  srcaddr = 2 ∷ replicate 19 0;
  dstaddr = replicate 20 0;
  multicast_port = 0;
}

abbrev transport : RtpTransport
transport = record {
  spec = [];
  ssrc = 0;
  type = udp;
  mode = play_mode;
  append = pos 0;
  layers = pos 0;
  ttl = pos 0;
  delivery = unicast;
  rtp = half;
  rtcp = half;
}

-- "::1" and what it stands for.
abbrev local : List ℕ
local = 58 ∷ 58 ∷ 49 ∷ []

abbrev pton4 : List ℕ → Pton
pton4 s = invalid

abbrev pton6 : List ℕ → Pton
pton6 [] = invalid
pton6 (c ∷ s) = converted (1 ∷ replicate 15 0)

abbrev ntop : ℕ → List ℕ → ℕ → Option (List ℕ)
ntop f xs len = some local

abbrev printed : ℕ → ℕ → List ℕ
printed f len = 63 ∷ []

rtp_transport_get-set_example :
    let (r, t') = rtp_transport_set pton4 pton6 srcaddrstr (some local) transport in
    (r ≡ is_set)
    × (rtp_transport_get ntop printed srcaddrstr (some []) 46 t' ≡ (is_set, some local))
rtp_transport_get-set_example =
    rtp_transport_get-set pton4 pton6 ntop printed srcaddrstr local [] 46 transport
      (inr (1 ∷ replicate 15 0, refl, refl, refl, refl), refl)

rtp_transport_set-invalid_example :
    let (r, t') = rtp_transport_set pton4 pton6 srcaddrstr (some []) transport in
    (r ≡ not_set)
    × (family t'.rtp.srcaddr ≡ 0)
    × (rtp_transport_get ntop printed srcaddrstr (some []) 46 t' ≡ (is_set, some (63 ∷ [])))
rtp_transport_set-invalid_example =
    rtp_transport_set-invalid pton4 pton6 ntop printed [] [] 46 transport refl refl
