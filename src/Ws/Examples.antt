-- ===== src/Ws/Examples.antt =====
-- The theorems on the masking, the close codes and the UTF-8 validator of src/ws.c, at concrete
-- bytes.
use ws_server.Base.{ℕ, ◌≡◌, ◌↔◌, true, some, List, [], ◌∷◌}
use ws_server.Ws.Utf8.{Utf8St, utf8_reset, utf8_feed, utf8_done}
use ws_server.Ws.Utf8.Unicode.{IsText, utf8_feed-IsText_iff}

-- The euro sign.
abbrev euro : List ℕ
euro = 0xE2 ∷ 0x82 ∷ 0xAC ∷ []

abbrev key : List ℕ
key = 0x37 ∷ 0xFA ∷ 0x21 ∷ 0x3D ∷ []

abbrev no_status : ℕ
no_status = 1005

utf8_feed-IsText_iff_example :
    ((st : Utf8St) × (utf8_feed utf8_reset euro ≡ some st) × (utf8_done st ≡ true)) ↔ IsText euro
utf8_feed-IsText_iff_example = utf8_feed-IsText_iff euro
