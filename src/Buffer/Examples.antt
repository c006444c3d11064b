-- ===== src/Buffer/Examples.antt =====
-- The theorems on the buffers of src/conn.c at concrete buffers.
use ws_server.Base.{
  ℕ, ◌+◌, ◌≤◌, ◌<◌, ◌≡◌, ◌≢◌, ◌↔◌, refl, Bool, true, false, List, [], ◌∷◌, ◌++◌, length, arith,
}
use ws_server.Buffer.{Buf, buf_reserve, buf_append}
use ws_server.Buffer.Laws.{IsBuf, content, IsReserved, buf_reserve-IsReserved, buf_reserve_refuses}
use ws_server.Buffer.Append.{buf_append_lem}
use ws_server.Buffer.Socket.{bytes, end_of_stream, takes, send_blocks, buf_recv, buf_send}
use ws_server.Buffer.Socket.Send.{IsSent, buf_send-IsSent}
use ws_server.Buffer.Socket.Recv.{available, IsReceived, buf_recv-IsReceived}

-- Five bytes were written to a block of eight, and two of them are taken.
abbrev some_buf : Buf
some_buf = record { p = 1 ∷ 2 ∷ 3 ∷ 4 ∷ 5 ∷ []; cap = 8; len = 5; off = 2 }

some_buf-IsBuf : IsBuf some_buf
some_buf-IsBuf = record { in_order = omega arith; written = omega arith; within = omega arith }

abbrev always : ℕ → Bool
always n = true

buf_reserve-IsReserved_example : IsReserved some_buf 100 (buf_reserve always some_buf 100 64)
buf_reserve-IsReserved_example =
    buf_reserve-IsReserved always some_buf 100 64 some_buf-IsBuf (omega arith)

abbrev some_cap : ℕ
some_cap = 64

buf_reserve_refuses_example :
    ((buf_reserve always some_buf 100 some_cap).1 ≡ false)
    ↔ ((some_cap ≢ 0) × (some_cap < length (content some_buf) + 100))
buf_reserve_refuses_example =
    buf_reserve_refuses always (λ n. refl) some_buf 100 some_cap some_buf-IsBuf (omega arith)
      (unfold content in omega arith)

abbrev more : List ℕ
more = 6 ∷ 7 ∷ 8 ∷ 9 ∷ 10 ∷ 11 ∷ []

buf_append_lem_example :
    IsBuf (buf_append always some_buf more)
    × (content (buf_append always some_buf more) ≡ content some_buf ++ more)
    × ((buf_append always some_buf more).len ≤ some_buf.len + length more)
    × ((buf_append always some_buf more).off ≤ some_buf.off)
buf_append_lem_example =
    buf_append_lem always some_buf more (λ n. refl) some_buf-IsBuf (omega arith)

buf_send-IsSent_example :
    IsSent some_buf (9 ∷ []) (buf_send some_buf (9 ∷ []) (takes 2 ∷ send_blocks ∷ []))
buf_send-IsSent_example =
    buf_send-IsSent some_buf (9 ∷ []) (takes 2 ∷ send_blocks ∷ []) some_buf-IsBuf

buf_recv-IsReceived_example :
    IsReceived some_buf false
      (bytes more ∷ end_of_stream ∷ [])
      (buf_recv always some_buf 4 64 (bytes more ∷ end_of_stream ∷ []))
buf_recv-IsReceived_example =
    buf_recv-IsReceived always 4 64 (omega arith) some_buf (bytes more ∷ end_of_stream ∷ [])
      some_buf-IsBuf (unfold available in omega arith)
