-- ===== src/Http/Examples.antt =====
-- A run of `httpParseHandshake` of src/http.c, and the theorems on the request at concrete bytes.
use ws_server.Base.{ℕ, List, [], ◌∷◌}
use ws_server.Http.{find_header_end}
use ws_server.Http.Search.{FindsFirst, find_header_end-FindsFirst}

-- The request of RFC 6455, 1.3, for the path "/feed".
abbrev pub request : List ℕ
request =
    71 ∷ 69 ∷ 84 ∷ 32 ∷ 47 ∷ 102 ∷ 101 ∷ 101 ∷ 100 ∷ 32 ∷ 72 ∷ 84 ∷ 84 ∷ 80 ∷ 47 ∷ 49 ∷ 46 ∷ 49 ∷ 13
    ∷ 10 ∷ 72 ∷ 111 ∷ 115 ∷ 116 ∷ 58 ∷ 32 ∷ 120 ∷ 13 ∷ 10 ∷ 85 ∷ 112 ∷ 103 ∷ 114 ∷ 97 ∷ 100 ∷ 101
    ∷ 58 ∷ 32 ∷ 119 ∷ 101 ∷ 98 ∷ 115 ∷ 111 ∷ 99 ∷ 107 ∷ 101 ∷ 116 ∷ 13 ∷ 10 ∷ 67 ∷ 111 ∷ 110 ∷ 110
    ∷ 101 ∷ 99 ∷ 116 ∷ 105 ∷ 111 ∷ 110 ∷ 58 ∷ 32 ∷ 107 ∷ 101 ∷ 101 ∷ 112 ∷ 45 ∷ 97 ∷ 108 ∷ 105 ∷ 118
    ∷ 101 ∷ 44 ∷ 32 ∷ 85 ∷ 112 ∷ 103 ∷ 114 ∷ 97 ∷ 100 ∷ 101 ∷ 13 ∷ 10 ∷ 83 ∷ 101 ∷ 99 ∷ 45 ∷ 87
    ∷ 101 ∷ 98 ∷ 83 ∷ 111 ∷ 99 ∷ 107 ∷ 101 ∷ 116 ∷ 45 ∷ 86 ∷ 101 ∷ 114 ∷ 115 ∷ 105 ∷ 111 ∷ 110 ∷ 58
    ∷ 32 ∷ 49 ∷ 51 ∷ 13 ∷ 10 ∷ 83 ∷ 101 ∷ 99 ∷ 45 ∷ 87 ∷ 101 ∷ 98 ∷ 83 ∷ 111 ∷ 99 ∷ 107 ∷ 101 ∷ 116
    ∷ 45 ∷ 75 ∷ 101 ∷ 121 ∷ 58 ∷ 32 ∷ 100 ∷ 71 ∷ 104 ∷ 108 ∷ 73 ∷ 72 ∷ 78 ∷ 104 ∷ 98 ∷ 88 ∷ 66 ∷ 115
    ∷ 90 ∷ 83 ∷ 66 ∷ 117 ∷ 98 ∷ 50 ∷ 53 ∷ 106 ∷ 90 ∷ 81 ∷ 61 ∷ 61 ∷ 13 ∷ 10 ∷ 13 ∷ 10 ∷ []

abbrev pub feed_path : List ℕ
feed_path = 47 ∷ 102 ∷ 101 ∷ 101 ∷ 100 ∷ []

-- The key of that request.
abbrev sample_key : List ℕ
sample_key =
    100 ∷ 71 ∷ 104 ∷ 108 ∷ 73 ∷ 72 ∷ 78 ∷ 104 ∷ 98 ∷ 88 ∷ 66 ∷ 115 ∷ 90 ∷ 83 ∷ 66 ∷ 117 ∷ 98 ∷ 50
    ∷ 53 ∷ 106 ∷ 90 ∷ 81 ∷ 61 ∷ 61 ∷ []

-- The answer that the RFC gives to it.
abbrev sample_accept : List ℕ
sample_accept =
    115 ∷ 51 ∷ 112 ∷ 80 ∷ 76 ∷ 77 ∷ 66 ∷ 105 ∷ 84 ∷ 120 ∷ 97 ∷ 81 ∷ 57 ∷ 107 ∷ 89 ∷ 71 ∷ 122 ∷ 122
    ∷ 104 ∷ 90 ∷ 82 ∷ 98 ∷ 75 ∷ 43 ∷ 120 ∷ 79 ∷ 111 ∷ 61 ∷ []

find_header_end-FindsFirst_example : FindsFirst request (find_header_end request)
find_header_end-FindsFirst_example = find_header_end-FindsFirst request
