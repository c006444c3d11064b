-- ===== src/Upstream.antt =====
-- src/ws_client.c: the frames that the server sends as a client of an upstream server.
pub mod Encode
pub mod Client
pub mod Frames
pub mod Handshake
pub mod Reactor
pub mod Examples
pub mod Runs
use ws_server.Base.{
  ℕ, ◌+◌, ◌*◌, ◌/◌, ◌%◌, ◌^◌, bit_and, bit_or, Bool, true, false, Option, none, some, List, [], ◌∷◌,
  ◌++◌, zero, suc, ◌-◌, ◌&&◌, if◌then◌else◌, ltb, leb, length,
}
use ws_server.Buffer.{Buf, buf_append}
use ws_server.Ws.Header.{be_bytes}
use ws_server.Ws.Mask.{unmask}

-- The header, with the mask bit and the masking key.
pub client_header : ℕ → ℕ → List ℕ → List ℕ
client_header opcode len mask =
    bit_or 0x80 (bit_and opcode 0x0F)
    ∷ ((if leb len 125
          then bit_or 0x80 len ∷ []
          else if leb len 0xFFFF
          then bit_or 0x80 126 ∷ (len / 2 ^ 8 % 256) ∷ (len % 256) ∷ []
          else bit_or 0x80 127 ∷ be_bytes 8 len)
        ++ mask)

-- The header and the payload, each byte exclusive or its key byte, as the loop of `wsUnmask` does it.
pub client_frame : ℕ → List ℕ → List ℕ → List ℕ
client_frame opcode payload mask = client_header opcode (length payload) mask ++ unmask payload mask

-- `queueMaskedFrame` up to `updateEvents`, which it ends with where the Boolean is true; `random` is
-- what `randomBytes` gives.
pub queue_masked_frame : (ℕ → Bool) → (ℕ → Bool) → Option (List ℕ) → Buf → ℕ → List ℕ → Buf × Bool
queue_masked_frame malloc realloc none tx opcode payload = (tx, false)
queue_masked_frame malloc realloc (some mask) tx opcode payload =
    let b = buf_append realloc tx (client_header opcode (length payload) mask) in
    if ltb 0 (length payload)
    then (if malloc (length payload)
        then (buf_append realloc b (unmask payload mask), true)
        else (b, false))
    else (b, true)

-- `reconnectDelayMs`: the loop, which doubles at most five times, and the limit.
pub double_delay : ℕ → ℕ → ℕ → ℕ
double_delay zero attempt delay = delay
double_delay (suc fuel) attempt delay =
    if ltb 0 attempt && ltb delay 30000 then double_delay fuel (attempt - 1) (delay * 2) else delay

pub reconnect_delay_ms : ℕ → ℕ
reconnect_delay_ms attempt =
    let delay = double_delay 5 attempt 1000 in if ltb 30000 delay then 30000 else delay
