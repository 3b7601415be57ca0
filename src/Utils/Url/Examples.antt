-- ===== src/Utils/Url/Examples.antt =====
-- The theorem on URLs at "r://h:5/a".
use libnemesi.Common.{◌≡◌, some, [], ◌∷◌, arith}
use libnemesi.Utils.Url.{colon, slash, rtsp_url_init, copy}
use libnemesi.Utils.Url.Parts.{rtsp_url_init_lem}

rtsp_url_init_example :
    rtsp_url_init (114 ∷ colon ∷ slash ∷ slash ∷ 104 ∷ colon ∷ 53 ∷ slash ∷ 97 ∷ []) ≡ record {
      protocol = copy (114 ∷ []);
      hostname = 104 ∷ [];
      port = copy (53 ∷ []);
      path = some (slash ∷ 97 ∷ []);
    }
rtsp_url_init_example =
    rtsp_url_init_lem (114 ∷ []) (104 ∷ []) (53 ∷ []) (97 ∷ []) (omega arith) (omega arith)
      (omega arith) (omega arith)
