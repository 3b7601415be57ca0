-- ===== src/Rtp/Buffer/Examples.antt =====
-- The theorems on the reader's functions at a buffer that holds one packet.
use libnemesi.Common.{◌≡◌, true, some, [], ◌∷◌, ◌++◌}
use libnemesi.Bufferpool.FreeList.{range}
use libnemesi.Bufferpool.Get.{one_held}
use libnemesi.Playout.Samples.{one, one-IsJoint}
use libnemesi.Rtp.Buffer.{Buffers, rtp_get_pkt, rtp_rm_all_pkts}
use libnemesi.Rtp.Buffer.Clear.{AreValid, rtp_rm_all_pkts-AreValid}
use libnemesi.Rtp.Buffer.Read.{Trimmed, rtp_get_pkt-Trimmed}

abbrev buffers : Buffers
buffers = record { bp = one_held; po = one }

rtp_get_pkt-Trimmed_example :
    Trimmed (λ t. true) [] buffers (0 ∷ []) (rtp_get_pkt (λ t. true) buffers)
rtp_get_pkt-Trimmed_example =
    rtp_get_pkt-Trimmed (λ t. true) [] buffers (range 1 149) (0 ∷ []) one-IsJoint

rtp_rm_all_pkts-AreValid_example :
    (b' : Buffers) × (rtp_rm_all_pkts buffers ≡ some b') × AreValid b' (0 ∷ [] ++ range 1 149) [] []
rtp_rm_all_pkts-AreValid_example =
    rtp_rm_all_pkts-AreValid buffers (range 1 149) [] (0 ∷ []) one-IsJoint
