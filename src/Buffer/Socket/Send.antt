-- ===== src/Buffer/Socket/Send.antt =====
-- `bufSend` loses, doubles and moves no byte.
use ws_server.Base.{
  ℕ, ◌≤◌, ◌≡◌, refl, ap, sym, ◌∙◌, inl, inr, true, List, [], ◌∷◌, ◌++◌, ◌==◌, length, take, drop,
  min, take-append-drop, append_assoc, take-take, Bool-cases, arith,
}
use ws_server.Buffer.{Buf, buf_data, buf_len, buf_consume}
use ws_server.Buffer.Laws.{IsBuf, content, length-content}
use ws_server.Buffer.Append.{buf_consume_lem}
use ws_server.Buffer.Socket.{
  SendAnswer, takes, send_blocks, send_fails, SendRc, all_sent, blocked, send_error, Sent, sent,
  buf_send,
}

nil_of_length : (xs : List ℕ) → length xs ≡ 0 → xs ≡ []
nil_of_length [] e = refl
nil_of_length (x ∷ xs) e = absurd (omega arith)

-- What was given to the peer and what is still waiting make up what there was before.
pub record IsSent (b : Buf) (wire : List ℕ) (r : Sent) : Type 0 where
  pub valid : IsBuf r.buf
  pub kept : r.wire ++ content r.buf ≡ wire ++ content b
  pub emptied : r.rc ≡ all_sent → content r.buf ≡ []
  pub shrinks : r.buf.len ≤ b.len

module _ (b : Buf) (wire : List ℕ) (v : IsBuf b) where
  sent-IsSent :
      (rc : SendRc) (left : List SendAnswer)
      → (rc ≡ all_sent → content b ≡ [])
      → IsSent b wire (sent rc b wire left)
  unfolding sent
  sent-IsSent rc left h = record { valid = v; kept = refl; emptied = h; shrinks = omega arith }

  nothing_left : (buf_len b == 0) ≡ true → content b ≡ []
  nothing_left e = nil_of_length (content b) (ground (arith, length-content b v))

-- The bytes that one call takes come off the front.
taken :
    (b : Buf) (n : ℕ)
    → IsBuf b
    → n ≤ buf_len b
    → take n (buf_data b) ++ content (buf_consume b n) ≡ content b
taken b n v h =
    let (_, rest, _, _) = buf_consume_lem b n v in
    rw rest
      (ap (λ (t : List ℕ). t ++ drop n (content b)) (sym front) ∙ take-append-drop n (content b))
  where
    front : take n (content b) ≡ take n (buf_data b)
    front = unfold content in take-take n (buf_len b) (buf_data b) h

-- From a sound buffer, what `bufSend` gives the peer and what it keeps are together, in order, what
-- the peer had and what was waiting, however the socket answers; with 1 nothing is kept.
pub buf_send-IsSent :
    (b : Buf) (wire : List ℕ) (answers : List SendAnswer)
    → IsBuf b
    → IsSent b wire (buf_send b wire answers)
unfolding buf_send
buf_send-IsSent b wire [] v = elim (Bool-cases (buf_len b == 0)) [
  | inl done ↦ rw done (sent-IsSent b wire v all_sent [] (λ _. nothing_left b wire v done))
  | inr more ↦ rw more (sent-IsSent b wire v blocked [] (λ e. cc))
]
buf_send-IsSent b wire (takes k ∷ rest) v = elim (Bool-cases (buf_len b == 0)) [
  | inl done ↦ rw done (sent-IsSent b wire v all_sent _ (λ _. nothing_left b wire v done))
  | inr more ↦ rw more (elim (Bool-cases (min k (buf_len b) == 0)) [
    | inl none_taken ↦ rw none_taken (sent-IsSent b wire v send_error rest (λ e. cc))
    | inr some_taken ↦
        let n = min k (buf_len b) in
        let (valid, _, shorter, _) = buf_consume_lem b n v in
        let front = take n (buf_data b) in
        let r = buf_send-IsSent (buf_consume b n) (wire ++ front) rest valid in
        rw some_taken (record {
          valid = r.valid;
          kept =
              r.kept
              ∙ append_assoc wire front (content (buf_consume b n))
              ∙ ap (λ (t : List ℕ). wire ++ t) (taken b n v (omega arith));
          emptied = r.emptied;
          shrinks = omega (arith, r.shrinks);
        })
  ])
]
buf_send-IsSent b wire (send_blocks ∷ rest) v = elim (Bool-cases (buf_len b == 0)) [
  | inl done ↦ rw done (sent-IsSent b wire v all_sent _ (λ _. nothing_left b wire v done))
  | inr more ↦ rw more (sent-IsSent b wire v blocked rest (λ e. cc))
]
buf_send-IsSent b wire (send_fails ∷ rest) v = elim (Bool-cases (buf_len b == 0)) [
  | inl done ↦ rw done (sent-IsSent b wire v all_sent _ (λ _. nothing_left b wire v done))
  | inr more ↦ rw more (sent-IsSent b wire v send_error rest (λ e. cc))
]
