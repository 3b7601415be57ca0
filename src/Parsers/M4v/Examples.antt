-- ===== src/Parsers/M4v/Examples.antt =====
-- The theorem on MPEG-4 at a frame of two packets, with a configuration that has not been sent.
use libnemesi.Common.{refl, false, [], ◌∷◌, arith}
use libnemesi.Packet.{byte, bytes_at, cc, pad, mark, time, word}
use libnemesi.Rtp.Header.{payload_start, payload_size, overhead, last_byte}
use libnemesi.Parsers.{payload}
use libnemesi.Parsers.Fill.{Packet, fill_loop}
use libnemesi.Parsers.Frame.{Run, Yields}
use libnemesi.Parsers.Samples.{line, always, no_output, idle, sample}
use libnemesi.Parsers.M4v.{M4v, is_due, m4v_parse}
use libnemesi.Parsers.M4v.Frames.{IsIdle, frames, m4v_parse-frame}

abbrev m4v_first : Packet
m4v_first = sample 96 (3 ∷ [])

abbrev m4v_last : Packet
m4v_last = sample 224 (4 ∷ [])

abbrev m4v_state : M4v
m4v_state = record { assembly = idle; conf = 1 ∷ 2 ∷ []; configured = false }

m4v-Run :
    Run line (m4v_parse always) (frames always (λ n. refl) 9) (1 ∷ 2 ∷ []) (m4v_first ∷ []) m4v_last
unfolding mark time word byte
m4v-Run = ((refl, refl), ((λ e. omega arith), refl))

m4v_parse-frame_example :
    Yields line IsIdle
      (1 ∷ 2 ∷ 3 ∷ 4 ∷ [])
      []
      (fill_loop line (m4v_parse always) 2 no_output (m4v_first ∷ m4v_last ∷ []) m4v_state)
unfolding byte is_due payload payload_start payload_size overhead last_byte cc pad bytes_at
m4v_parse-frame_example =
    m4v_parse-frame always (λ n. refl) line 9 2 no_output (m4v_first ∷ m4v_last ∷ []) m4v_state
      (m4v_first ∷ []) m4v_last [] (omega arith) (record { present = refl; empty = refl }) m4v-Run
      refl
