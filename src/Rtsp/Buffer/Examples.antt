-- ===== src/Rtsp/Buffer/Examples.antt =====
-- The theorem on the input buffer, at an interleaved packet of two bytes with one more byte behind it.
use libnemesi.Common.{◌≡◌, ◌<◌, refl, true, [], ◌∷◌, arith}
use libnemesi.Rtsp.Buffer.{RtspBuffer, full_msg_rcvd, remove_pkt}
use libnemesi.Rtsp.Buffer.Bounds.{IsBuffer, remove_pkt-rest}

abbrev read : RtspBuffer
read = record { size = 7; first_pkt_size = 0; bytes = 36 ∷ 0 ∷ 0 ∷ 2 ∷ 7 ∷ 8 ∷ 9 ∷ [] }

abbrev found : RtspBuffer
found = record { size = 7; first_pkt_size = 6; bytes = 36 ∷ 0 ∷ 0 ∷ 2 ∷ 7 ∷ 8 ∷ 9 ∷ [] }

read-IsBuffer : IsBuffer read
read-IsBuffer = record { sized = refl; first = omega arith; fits = omega arith }

read-found : full_msg_rcvd true read ≡ (true, found)
unfolding full_msg_rcvd
read-found = refl

remove_pkt-rest_example :
    let r = remove_pkt true (5 ∷ []) found in
    (r.bytes ≡ 9 ∷ 5 ∷ []) × (r.size ≡ 1) × (r.first_pkt_size ≡ 0) × (r.size < 7)
remove_pkt-rest_example = remove_pkt-rest true (5 ∷ []) read found read-IsBuffer read-found
