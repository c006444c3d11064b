-- ===== src/Http/Texts.antt =====
-- The fixed texts of src/http.c, src/worker.c and of `wsComputeAccept`, as the codes of their characters.
use ws_server.Base.{ℕ, List, [], ◌∷◌}

-- "GET "
abbrev pub get_text : List ℕ
get_text = 71 ∷ 69 ∷ 84 ∷ 32 ∷ []

-- "Upgrade"
abbrev pub upgrade_name : List ℕ
upgrade_name = 85 ∷ 112 ∷ 103 ∷ 114 ∷ 97 ∷ 100 ∷ 101 ∷ []

-- "Connection"
abbrev pub connection_name : List ℕ
connection_name = 67 ∷ 111 ∷ 110 ∷ 110 ∷ 101 ∷ 99 ∷ 116 ∷ 105 ∷ 111 ∷ 110 ∷ []

-- "Sec-WebSocket-Version"
abbrev pub version_name : List ℕ
version_name =
    83 ∷ 101 ∷ 99 ∷ 45 ∷ 87 ∷ 101 ∷ 98 ∷ 83 ∷ 111 ∷ 99 ∷ 107 ∷ 101 ∷ 116 ∷ 45 ∷ 86 ∷ 101 ∷ 114 ∷ 115
    ∷ 105 ∷ 111 ∷ 110 ∷ []

-- "Sec-WebSocket-Key"
abbrev pub key_name : List ℕ
key_name =
    83 ∷ 101 ∷ 99 ∷ 45 ∷ 87 ∷ 101 ∷ 98 ∷ 83 ∷ 111 ∷ 99 ∷ 107 ∷ 101 ∷ 116 ∷ 45 ∷ 75 ∷ 101 ∷ 121 ∷ []

-- "websocket"
abbrev pub websocket_token : List ℕ
websocket_token = 119 ∷ 101 ∷ 98 ∷ 115 ∷ 111 ∷ 99 ∷ 107 ∷ 101 ∷ 116 ∷ []

-- "Upgrade"
abbrev pub upgrade_token : List ℕ
upgrade_token = 85 ∷ 112 ∷ 103 ∷ 114 ∷ 97 ∷ 100 ∷ 101 ∷ []

-- "13"
abbrev pub version_13 : List ℕ
version_13 = 49 ∷ 51 ∷ []

-- "258EAFA5-E914-47DA-95CA-C5AB0DC85B11"
abbrev pub magic : List ℕ
magic =
    50 ∷ 53 ∷ 56 ∷ 69 ∷ 65 ∷ 70 ∷ 65 ∷ 53 ∷ 45 ∷ 69 ∷ 57 ∷ 49 ∷ 52 ∷ 45 ∷ 52 ∷ 55 ∷ 68 ∷ 65 ∷ 45
    ∷ 57 ∷ 53 ∷ 67 ∷ 65 ∷ 45 ∷ 67 ∷ 53 ∷ 65 ∷ 66 ∷ 48 ∷ 68 ∷ 67 ∷ 56 ∷ 53 ∷ 66 ∷ 49 ∷ 49 ∷ []

-- "HTTP/1.1 101 Switching Protocols\r\nUpgrade: websocket\r\nConnection: Upgrade\r\nSec-WebSocket-Accept: "
abbrev pub switching : List ℕ
switching =
    72 ∷ 84 ∷ 84 ∷ 80 ∷ 47 ∷ 49 ∷ 46 ∷ 49 ∷ 32 ∷ 49 ∷ 48 ∷ 49 ∷ 32 ∷ 83 ∷ 119 ∷ 105 ∷ 116 ∷ 99 ∷ 104
    ∷ 105 ∷ 110 ∷ 103 ∷ 32 ∷ 80 ∷ 114 ∷ 111 ∷ 116 ∷ 111 ∷ 99 ∷ 111 ∷ 108 ∷ 115 ∷ 13 ∷ 10 ∷ 85 ∷ 112
    ∷ 103 ∷ 114 ∷ 97 ∷ 100 ∷ 101 ∷ 58 ∷ 32 ∷ 119 ∷ 101 ∷ 98 ∷ 115 ∷ 111 ∷ 99 ∷ 107 ∷ 101 ∷ 116 ∷ 13
    ∷ 10 ∷ 67 ∷ 111 ∷ 110 ∷ 110 ∷ 101 ∷ 99 ∷ 116 ∷ 105 ∷ 111 ∷ 110 ∷ 58 ∷ 32 ∷ 85 ∷ 112 ∷ 103 ∷ 114
    ∷ 97 ∷ 100 ∷ 101 ∷ 13 ∷ 10 ∷ 83 ∷ 101 ∷ 99 ∷ 45 ∷ 87 ∷ 101 ∷ 98 ∷ 83 ∷ 111 ∷ 99 ∷ 107 ∷ 101
    ∷ 116 ∷ 45 ∷ 65 ∷ 99 ∷ 99 ∷ 101 ∷ 112 ∷ 116 ∷ 58 ∷ 32 ∷ []

-- "\r\n\r\n"
abbrev pub blank_line : List ℕ
blank_line = 13 ∷ 10 ∷ 13 ∷ 10 ∷ []

-- "HTTP/1.1 "
abbrev pub http_version : List ℕ
http_version = 72 ∷ 84 ∷ 84 ∷ 80 ∷ 47 ∷ 49 ∷ 46 ∷ 49 ∷ 32 ∷ []

-- "\r\n"
abbrev pub crlf : List ℕ
crlf = 13 ∷ 10 ∷ []

-- "Content-Length: 0\r\nConnection: close\r\n\r\n"
abbrev pub closing : List ℕ
closing =
    67 ∷ 111 ∷ 110 ∷ 116 ∷ 101 ∷ 110 ∷ 116 ∷ 45 ∷ 76 ∷ 101 ∷ 110 ∷ 103 ∷ 116 ∷ 104 ∷ 58 ∷ 32 ∷ 48
    ∷ 13 ∷ 10 ∷ 67 ∷ 111 ∷ 110 ∷ 110 ∷ 101 ∷ 99 ∷ 116 ∷ 105 ∷ 111 ∷ 110 ∷ 58 ∷ 32 ∷ 99 ∷ 108 ∷ 111
    ∷ 115 ∷ 101 ∷ 13 ∷ 10 ∷ 13 ∷ 10 ∷ []

-- "431"
abbrev pub code_431 : List ℕ
code_431 = 52 ∷ 51 ∷ 49 ∷ []

-- "Request Header Fields Too Large"
abbrev pub reason_431 : List ℕ
reason_431 =
    82 ∷ 101 ∷ 113 ∷ 117 ∷ 101 ∷ 115 ∷ 116 ∷ 32 ∷ 72 ∷ 101 ∷ 97 ∷ 100 ∷ 101 ∷ 114 ∷ 32 ∷ 70 ∷ 105
    ∷ 101 ∷ 108 ∷ 100 ∷ 115 ∷ 32 ∷ 84 ∷ 111 ∷ 111 ∷ 32 ∷ 76 ∷ 97 ∷ 114 ∷ 103 ∷ 101 ∷ []

-- "426"
abbrev pub code_426 : List ℕ
code_426 = 52 ∷ 50 ∷ 54 ∷ []

-- "Upgrade Required"
abbrev pub reason_426 : List ℕ
reason_426 =
    85 ∷ 112 ∷ 103 ∷ 114 ∷ 97 ∷ 100 ∷ 101 ∷ 32 ∷ 82 ∷ 101 ∷ 113 ∷ 117 ∷ 105 ∷ 114 ∷ 101 ∷ 100 ∷ []

-- "Sec-WebSocket-Version: 13\r\n"
abbrev pub version_line : List ℕ
version_line =
    83 ∷ 101 ∷ 99 ∷ 45 ∷ 87 ∷ 101 ∷ 98 ∷ 83 ∷ 111 ∷ 99 ∷ 107 ∷ 101 ∷ 116 ∷ 45 ∷ 86 ∷ 101 ∷ 114 ∷ 115
    ∷ 105 ∷ 111 ∷ 110 ∷ 58 ∷ 32 ∷ 49 ∷ 51 ∷ 13 ∷ 10 ∷ []

-- "400"
abbrev pub code_400 : List ℕ
code_400 = 52 ∷ 48 ∷ 48 ∷ []

-- "Bad Request"
abbrev pub reason_400 : List ℕ
reason_400 = 66 ∷ 97 ∷ 100 ∷ 32 ∷ 82 ∷ 101 ∷ 113 ∷ 117 ∷ 101 ∷ 115 ∷ 116 ∷ []
