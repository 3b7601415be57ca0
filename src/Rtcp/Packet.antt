-- ===== src/Rtcp/Packet.antt =====
-- The RTCP packet, `rtcp_pkt` of src/nemesi/rtcp.h, in a received datagram: the datagram is a list of
-- bytes, and a pointer to a packet in it is an offset in 32-bit words. The host is little-endian.
use libnemesi.Common.{ℕ, ◌+◌, ◌*◌, ◌/◌, ◌%◌, ◌<◌, arith}
use libnemesi.Packet.{Slot, byte, byte-lt}

unfoldable pub common_ver : Slot → ℕ → ℕ
common_ver p w = byte p (4 * w) / 64

unfoldable pub common_pad : Slot → ℕ → ℕ
common_pad p w = byte p (4 * w) / 32 % 2

unfoldable pub common_count : Slot → ℕ → ℕ
common_count p w = byte p (4 * w) % 32

unfoldable pub common_pt : Slot → ℕ → ℕ
common_pt p w = byte p (4 * w + 1)

-- `ntohs(common.len)`
unfoldable pub common_len : Slot → ℕ → ℕ
common_len p w = byte p (4 * w + 2) * 256 + byte p (4 * w + 3)

-- `common.len`, whose bytes are in the order of the network.
unfoldable pub raw_len : Slot → ℕ → ℕ
raw_len p w = byte p (4 * w + 3) * 256 + byte p (4 * w + 2)

-- The value of RTCP_SR to RTCP_APP
abbrev pub sr_pt : ℕ
sr_pt = 200

abbrev pub rr_pt : ℕ
rr_pt = 201

abbrev pub sdes_pt : ℕ
sdes_pt = 202

abbrev pub bye_pt : ℕ
bye_pt = 203

abbrev pub app_pt : ℕ
app_pt = 204

pub common_len-lt : (p : Slot) (w : ℕ) → common_len p w < 65536
unfolding common_len
common_len-lt p w = omega (arith, byte-lt p (4 * w + 2), byte-lt p (4 * w + 3))
