-- ===== src/Buffer/Socket.antt =====
-- `bufRecv` and `bufSend` of src/conn.c. The answers of `recv` and `send` are a script, used up one
-- call at a time; an empty script answers that the call would block.
pub mod Recv
pub mod Send
use ws_server.Base.{
  ℕ, zero, suc, ◌+◌, ◌-◌, Bool, true, false, List, [], ◌∷◌, ◌++◌, if◌then◌else◌, leb, ◌==◌, length,
  take, drop, min,
}
use ws_server.Buffer.{Buf, buf_data, buf_len, buf_reserve, buf_write, buf_consume}

-- What a `recv` call may answer. `bytes` are those waiting in the kernel; a call takes as many as
-- it has room for, and leaves the others to the next call.
pub data RecvAnswer : Type 0 where
  bytes : List ℕ → RecvAnswer
  end_of_stream recv_blocks recv_fails : RecvAnswer

-- The return values 1, 2, 0, -1 and -2 of `bufRecv`.
pub data RecvRc : Type 0 where
  got got_eof again closed too_big : RecvRc

pub record Received : Type 0 where
  pub rc : RecvRc
  pub buf : Buf
  pub left : List RecvAnswer

-- The script behind a `recv` of at most `room` of the bytes `xs`.
unfoldable pub after_recv : ℕ → List ℕ → List RecvAnswer → List RecvAnswer
after_recv room xs rest = if leb (length xs) room then rest else bytes (drop room xs) ∷ rest

abbrev pub seen : Bool → RecvRc → RecvRc → RecvRc
seen any yes_rc no_rc = if any then yes_rc else no_rc

module _ (realloc : ℕ → Bool) (chunk hard_cap : ℕ) where
  -- The loop; `fuel` bounds the number of `recv` calls.
  unfoldable pub recv_loop : ℕ → Bool → Buf → List RecvAnswer → Received
  recv_loop zero any b answers = record { rc = seen any got again; buf = b; left = answers }
  recv_loop (suc fuel) any b answers =
      let (c, reserved) = buf_reserve realloc b chunk hard_cap in
      let room = c.cap - c.len in
      elim reserved [
        | false ↦ record { rc = too_big; buf = c; left = answers }
        | true ↦ elim answers [
          | [] ↦ record { rc = seen any got again; buf = c; left = [] }
          | bytes [] ∷ rest ↦ record { rc = seen any got_eof closed; buf = c; left = rest }
          | bytes (x ∷ xs) ∷ rest ↦
              recv_loop fuel true (buf_write c (take room (x ∷ xs))) (after_recv room (x ∷ xs) rest)
          | end_of_stream ∷ rest ↦ record { rc = seen any got_eof closed; buf = c; left = rest }
          | recv_blocks ∷ rest ↦ record { rc = seen any got again; buf = c; left = rest }
          | recv_fails ∷ rest ↦ record { rc = seen any got_eof closed; buf = c; left = rest }
        ]
      ]

-- A `send` call takes a number of bytes, at most those offered, or answers EAGAIN or an error.
pub data SendAnswer : Type 0 where
  takes : ℕ → SendAnswer
  send_blocks send_fails : SendAnswer

-- The return values 1, 0 and -1 of `bufSend`.
pub data SendRc : Type 0 where
  all_sent blocked send_error : SendRc

-- `wire` is what the peer has been given so far.
pub record Sent : Type 0 where
  pub rc : SendRc
  pub buf : Buf
  pub wire : List ℕ
  pub left : List SendAnswer

-- One call for every byte that waits and for every answer: more calls are not made.
unfoldable pub calls : List RecvAnswer → ℕ
calls [] = 1
calls (bytes xs ∷ rest) = suc (length xs) + calls rest
calls (_ ∷ rest) = suc (calls rest)

unfoldable pub buf_recv : (ℕ → Bool) → Buf → ℕ → ℕ → List RecvAnswer → Received
buf_recv realloc b chunk hard_cap answers =
    recv_loop realloc chunk hard_cap (calls answers) false b answers

unfoldable pub sent : SendRc → Buf → List ℕ → List SendAnswer → Sent
sent rc b wire left = record { rc = rc; buf = b; wire = wire; left = left }

-- `while (bufLen(b) > 0) send(…)`; a call is offered all that waits.
unfoldable pub buf_send : Buf → List ℕ → List SendAnswer → Sent
buf_send b wire [] = if buf_len b == 0 then sent all_sent b wire [] else sent blocked b wire []
buf_send b wire (takes k ∷ rest) =
    let n = min k (buf_len b) in
    let more = buf_send (buf_consume b n) (wire ++ take n (buf_data b)) rest in
    if buf_len b == 0
    then sent all_sent b wire (takes k ∷ rest)
    else if n == 0
    then sent send_error b wire rest
    else more
buf_send b wire (send_blocks ∷ rest) =
    if buf_len b == 0 then sent all_sent b wire (send_blocks ∷ rest) else sent blocked b wire rest
buf_send b wire (send_fails ∷ rest) =
    if buf_len b == 0 then sent all_sent b wire (send_fails ∷ rest) else sent send_error b wire rest
