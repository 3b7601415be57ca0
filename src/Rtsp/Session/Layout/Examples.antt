-- ===== src/Rtsp/Session/Layout/Examples.antt =====
-- The theorem on the sessions of a description, at one with three media. The encoding of the second
-- one is M, which the one parser serves, and that of the third one is N.
use libnemesi.Common.{ℕ, ◌≡◌, refl, true, none, some, [], ◌∷◌}
use libnemesi.Rtsp.Session.{RtspSession, no_medium, udp, rtsp_sess_dup, rtsp_sess_create}
use libnemesi.Rtsp.Session.Media.{
  SdpMedium, rtpmap, known_media, is_known, control_of, checked, up_to, after_number, skip_digits,
  rtp_parser_check, served, same_nocase,
}
use libnemesi.Rtsp.Session.Layout.{
  rtsp_med_create, own_sessions, other_media, lay_out, set_rtsp_media, session_path,
  set_sdp_sessions, Description, set_rtsp_sessions,
}
use libnemesi.Rtsp.Session.Layout.Complete.{Described, set_rtsp_sessions-Described}

abbrev medium : SdpMedium
medium = record { attr_list = []; med = true; dup = true; announced = true }

abbrev of_encoding : ℕ → SdpMedium
of_encoding c = record medium {
  attr_list = record { name = rtpmap; value = 58 ∷ 57 ∷ 54 ∷ 32 ∷ c ∷ 47 ∷ 49 ∷ [] } ∷ [];
}

abbrev description : Description
description = record {
  is_sdp = true;
  content_base = none;
  mem_sess = true;
  mem_body = true;
  info =
      some (record {
        attr_list = [];
        media_info_queue = medium ∷ of_encoding 77 ∷ of_encoding 78 ∷ [];
      });
}

abbrev session : RtspSession
session = record {
  session_id = [];
  cseq = 1;
  pathname = 97 ∷ [];
  content_base = none;
  media_queue = record no_medium { type = udp } ∷ [];
}

sessions_made :
    set_rtsp_sessions (((109 ∷ []) ∷ []) ∷ []) (97 ∷ []) description []
    ≡ some (true, session ∷ session ∷ [])
unfolding set_rtsp_sessions set_sdp_sessions session_path set_rtsp_media lay_out other_media
    own_sessions rtsp_med_create rtsp_sess_dup rtsp_sess_create known_media is_known control_of
    checked up_to after_number skip_digits rtp_parser_check served same_nocase
sessions_made = refl

set_rtsp_sessions-Described_example :
    Described (((109 ∷ []) ∷ []) ∷ []) description (session ∷ session ∷ [])
set_rtsp_sessions-Described_example =
    set_rtsp_sessions-Described (((109 ∷ []) ∷ []) ∷ []) (97 ∷ []) description []
      (session ∷ session ∷ []) sessions_made
