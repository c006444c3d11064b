-- ===== src/Sha1/Stream.antt =====
-- Feeding src/sha1.c in chunks.
use ws_server.Base.{
  ℕ, zero, suc, ◌+◌, ◌-◌, ◌%◌, ◌^◌, ◌≤◌, ◌<◌, ◌≡◌, refl, ap, sym, ◌∙◌, min, true, false, inl, inr,
  List, [], ◌∷◌, ◌++◌, append-nil, append_assoc, if◌then◌else◌, ltb, leb, ◌==◌, length, take, drop,
  length-append, drop_all, length-take, length-drop, take-append-drop, take-append, drop-append,
  Bool-cases, arith,
}
use ws_server.Sha1.{
  Words, Sha1, sha1_init, sha1_block, absorb, absorb_rest, sha1_update, sha1_final, sha1,
}

-- The loop with enough fuel.
abbrev absorbed : Words → List ℕ → Words × List ℕ
absorbed h xs = absorb (length xs) h xs

absorb-short : (fuel : ℕ) (h : Words) (xs : List ℕ) → length xs < 64 → absorb fuel h xs ≡ (h, xs)
unfolding absorb
absorb-short zero h xs short = refl
absorb-short (suc fuel) h xs short = let e : leb 64 (length xs) ≡ false = ground arith in rw e refl

absorb-long :
    (fuel : ℕ) (h : Words) (xs : List ℕ)
    → 64 ≤ length xs
    → absorb (suc fuel) h xs ≡ absorb fuel (sha1_block h (take 64 xs)) (drop 64 xs)
unfolding absorb
absorb-long fuel h xs long = let e : leb 64 (length xs) ≡ true = ground arith in rw e refl

absorb-enough :
    (fuel fuel' : ℕ) (h : Words) (xs : List ℕ)
    → length xs ≤ fuel
    → length xs ≤ fuel'
    → absorb fuel h xs ≡ absorb fuel' h xs
absorb-enough zero fuel' h xs f f' =
    absorb-short zero h xs (omega arith) ∙ sym (absorb-short fuel' h xs (omega arith))
absorb-enough (suc fuel) zero h xs f f' =
    absorb-short (suc fuel) h xs (omega arith) ∙ sym (absorb-short zero h xs (omega arith))
absorb-enough (suc fuel) (suc fuel') h xs f f' = elim (Bool-cases (leb 64 (length xs))) [
  | inl long ↦
      let l = length-drop 64 xs in
      absorb-long fuel h xs (ground arith)
      ∙ absorb-enough fuel fuel' (sha1_block h (take 64 xs)) (drop 64 xs) (ground arith)
          (ground arith)
      ∙ sym (absorb-long fuel' h xs (ground arith))
  | inr short ↦
      absorb-short (suc fuel) h xs (ground arith)
      ∙ sym (absorb-short (suc fuel') h xs (ground arith))
]

-- A whole block in front is taken first.
absorbed-block :
    (h : Words) (block xs : List ℕ)
    → length block ≡ 64
    → absorbed h (block ++ xs) ≡ absorbed (sha1_block h block) xs
absorbed-block h block xs whole =
    let l = length-append block xs in
    let front : take 64 (block ++ xs) ≡ block = take-append 64 block xs whole in
    let back : drop 64 (block ++ xs) ≡ xs = drop-append 64 block xs whole in
    absorb-enough (length (block ++ xs)) (suc (length (block ++ xs))) h (block ++ xs) (omega arith)
      (omega arith)
    ∙ absorb-long (length (block ++ xs)) h (block ++ xs) (omega arith)
    ∙ rw (front, back)
        (absorb-enough (length (block ++ xs)) (length xs) (sha1_block h block) xs (omega arith)
          (omega arith))

-- What is left over joins what follows, and is less than a block.
absorb-append :
    (fuel : ℕ) (h : Words) (xs ys : List ℕ)
    → length xs ≤ fuel
    → (length (absorb fuel h xs).1 < 64)
      × (absorbed h (xs ++ ys) ≡ absorbed (absorb fuel h xs).0 ((absorb fuel h xs).1 ++ ys))
absorb-append zero h xs ys f = rw (absorb-short zero h xs (omega arith)) (omega arith, refl)
absorb-append (suc fuel) h xs ys f = elim (Bool-cases (leb 64 (length xs))) [
  | inl long ↦
      let b = take 64 xs in
      let l = length-take 64 xs in
      let l' = length-drop 64 xs in
      let block : 64 ≤ length xs = ground arith in
      let (less, rest) = absorb-append fuel (sha1_block h b) (drop 64 xs) ys (omega arith) in
      let split : xs ++ ys ≡ b ++ (drop 64 xs ++ ys) =
        ap (λ (t : List ℕ). t ++ ys) (sym (take-append-drop 64 xs))
        ∙ append_assoc b (drop 64 xs) ys in
      rw (absorb-long fuel h xs block)
        (less, ap (absorbed h) split ∙ absorbed-block h b (drop 64 xs ++ ys) (omega arith) ∙ rest)
  | inr short ↦ rw (absorb-short (suc fuel) h xs (ground arith)) (ground arith, refl)
]

kept : (xs : List ℕ) → (if ltb 0 (length xs) then xs else []) ≡ xs
kept [] = refl
kept (x ∷ xs) = let e : ltb 0 (suc (length xs)) ≡ true = ground arith in rw e refl

abbrev made : ℕ → Words × List ℕ → Sha1
made total r = record { h = r.0; total_len = total; buf = r.1 }

rest_fresh :
    (h : Words) (p : List ℕ) (total : ℕ) → absorb_rest h p total [] ≡ made total (absorbed h p)
unfolding absorb_rest
rest_fresh h p total = ap (λ b. made total ((absorbed h p).0, b)) (kept (absorbed h p).1)

rest_none : (h : Words) (total : ℕ) (k : List ℕ) → absorb_rest h [] total k ≡ made total (h, k)
unfolding absorb_rest absorb
rest_none h total k = refl

abbrev new_total : ℕ → List ℕ → ℕ
new_total total xs = (total + length xs) % 2 ^ 64

update_of :
    (h : Words) (total : ℕ) (buf xs : List ℕ)
    → length buf < 64
    → sha1_update (made total (h, buf)) xs ≡ made (new_total total xs) (absorbed h (buf ++ xs))
unfolding sha1_update
update_of h total [] xs short = rest_fresh h xs (new_total total xs)
update_of h total (b ∷ bs) xs short =
    let buf = b ∷ bs in
    let some_wait : ltb 0 (length buf) ≡ true = ground arith in
    let k = min (length xs) (64 - length buf) in
    let filled = buf ++ take k xs in
    let l : length filled ≡ length buf + k =
      omega (arith, length-append buf (take k xs), length-take k xs) in
    let l' = length-drop k xs in
    let split : buf ++ xs ≡ filled ++ drop k xs =
      ap (λ (t : List ℕ). buf ++ t) (sym (take-append-drop k xs))
      ∙ sym (append_assoc buf (take k xs) (drop k xs)) in
    elim (Bool-cases (length filled == 64)) [
      | inl whole ↦
          rw (some_wait, whole)
            (rest_fresh (sha1_block h filled) (drop k xs) (new_total total xs)
              ∙ ap (made (new_total total xs)) (
                  sym (absorbed-block h filled (drop k xs) (ground arith))
                  ∙ ap (absorbed h) (sym split)))
      | inr part ↦
          let less : length filled < 64 = ground arith in
          let nothing : drop k xs ≡ [] = drop_all k xs (omega arith) in
          let all : buf ++ xs ≡ filled =
            split ∙ ap (λ (t : List ℕ). filled ++ t) nothing ∙ append-nil filled in
          rw (some_wait, part, nothing)
            (rest_none h (new_total total xs) filled
              ∙ ap (made (new_total total xs))
                  (sym (absorb-short (length filled) h filled less) ∙ ap (absorbed h) (sym all)))
    ]

-- From a state with less than a block waiting, two calls of `sha1Update` leave the state that one
-- call with the joined bytes leaves, and less than a block waits again.
pub sha1_update-append :
    (c : Sha1) (xs ys : List ℕ)
    → length c.buf < 64
    → (length (sha1_update c xs).buf < 64)
      × (sha1_update (sha1_update c xs) ys ≡ sha1_update c (xs ++ ys))
sha1_update-append c xs ys short =
    let first = update_of c.h c.total_len c.buf xs short in
    let both = update_of c.h c.total_len c.buf (xs ++ ys) short in
    let r = absorbed c.h (c.buf ++ xs) in
    let t = new_total c.total_len xs in
    let (less, rest) = absorb-append (length (c.buf ++ xs)) c.h (c.buf ++ xs) ys (omega arith) in
    let second = update_of r.0 t r.1 ys less in
    let sum : new_total t ys ≡ new_total c.total_len (xs ++ ys) =
      omega (arith, length-append xs ys) in
    (
      rw first less,
      rw first (
          second
          ∙ ap (λ n. made n (absorbed r.0 (r.1 ++ ys))) sum
          ∙ ap (made (new_total c.total_len (xs ++ ys)))
              (sym rest ∙ ap (absorbed c.h) (append_assoc c.buf xs ys))
          ∙ sym both),
    )

-- SHA-1 of a text is what its pieces give, fed in turn.
pub sha1-append :
    (xs ys : List ℕ) → sha1_final (sha1_update (sha1_update sha1_init xs) ys) ≡ sha1 (xs ++ ys)
unfolding sha1
sha1-append xs ys = ap sha1_final (sha1_update-append sha1_init xs ys (omega arith)).1
