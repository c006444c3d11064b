-- ===== src/Http/Fields.antt =====
-- What it means that a request or a response has a header, apart from the loops of `httpFindHeader`
-- of src/http.c.
use ws_server.Base.{
  ℕ, zero, suc, ◌+◌, ◌-◌, ◌≡◌, refl, ap, sym, ◌∙◌, ◌⊎◌, inl, inr, Bool, true, ◌&&◌, some, List, [],
  ◌∷◌, ◌++◌, append_assoc, ltb, ◌==◌, length, take, drop, get_or, take-append-drop, drop-drop, All,
  Bool-cases, Option-cases, arith,
}
use mathlib.Core.Path.{subst}
use ws_server.Http.{
  find_crlf, same_name, skip_spaces, trim_end, find_in_lines, find_header, lists_token,
}
use ws_server.Http.Tokens.{SameText, IsSpace, Lists, trim_end_lem, header_has_token-Lists}

-- Behind the end of a line stands the name, in letters of either case, a colon, and the value between
-- spaces; the line ends behind them.
pub record HasHeader (bytes name value : List ℕ) : Type 0 where
  pub front : List ℕ
  pub label : List ℕ
  pub spaces : List ℕ
  pub more_spaces : List ℕ
  pub rest : List ℕ
  pub split :
      bytes ≡ front ++ (13 ∷ 10 ∷ (label ++ (58 ∷ (spaces ++ (value ++ (more_spaces ++ rest))))))
  pub same : SameText label name
  pub spaced : All IsSpace spaces
  pub more_spaced : All IsSpace more_spaces
  pub ends : (rest ≡ []) ⊎ ((next : List ℕ) × (rest ≡ 13 ∷ 10 ∷ next))

-- A header of that name lists the token.
pub HasToken : (bytes name token : List ℕ) → Type 0
HasToken bytes name token = (value : List ℕ) × HasHeader bytes name value × Lists value token

find_crlf-drop : (p : List ℕ) (n : ℕ) → find_crlf p ≡ some n → drop n p ≡ 13 ∷ 10 ∷ drop (n + 2) p
unfolding find_crlf
find_crlf-drop [] n e = absurd cc
find_crlf-drop (x ∷ []) n e = elim (Bool-cases ((x == 13) && (0 == 10))) [
  | inl here ↦ absurd (ground arith)
  | inr there ↦ absurd (ground arith)
]
find_crlf-drop (x ∷ y ∷ p) n e = elim (Bool-cases ((x == 13) && (y == 10))) [
  | inl here ↦
      let zero_is : n ≡ 0 = ground arith in
      let cr : x ≡ 13 = ground arith in let lf : y ≡ 10 = ground arith in rw (zero_is, cr, lf) refl
  | inr there ↦ elim (Option-cases (find_crlf (y ∷ p))) [
    | inl nowhere ↦ absurd (ground arith)
    | inr (m, found) ↦
        let next : n ≡ suc m = ground arith in
        let two : suc m + 2 ≡ suc (m + 2) = omega arith in
        rw next (rw two (find_crlf-drop (y ∷ p) m found))
  ]
]

crlf_split :
    (p : List ℕ) (n : ℕ) → find_crlf p ≡ some n → take n p ++ (13 ∷ 10 ∷ drop (n + 2) p) ≡ p
crlf_split p n e =
    ap (λ (t : List ℕ). take n p ++ t) (sym (find_crlf-drop p n e)) ∙ take-append-drop n p

drop-get_or : (k : ℕ) (p : List ℕ) → get_or p k 0 ≡ 58 → drop k p ≡ 58 ∷ drop (k + 1) p
drop-get_or zero [] e = absurd (omega arith)
drop-get_or zero (x ∷ p) e = ap (λ (c : ℕ). c ∷ p) e
drop-get_or (suc k) [] e = absurd (omega arith)
drop-get_or (suc k) (x ∷ p) e =
    let one : suc k + 1 ≡ suc (k + 1) = omega arith in rw one (drop-get_or k p e)

same_name-take : (p name : List ℕ) → same_name p name ≡ true → SameText (take (length name) p) name
unfolding same_name SameText
same_name-take p [] e = tt
same_name-take [] (c ∷ name) e = absurd cc
same_name-take (x ∷ p) (c ∷ name) e = (ground arith, same_name-take p name (ground arith))

skip_spaces_lem :
    (v : List ℕ) → (spaces : List ℕ) × (v ≡ spaces ++ skip_spaces v) × All IsSpace spaces
unfolding skip_spaces IsSpace
skip_spaces_lem [] = ([], refl, tt)
skip_spaces_lem (c ∷ v) =
    let (spaces, split, all) = skip_spaces_lem v in
    elim (Bool-cases (c == 32)) [
      | inl space ↦
          let is : c ≡ 32 = ground arith in
          rw space (c ∷ spaces, ap (λ (t : List ℕ). c ∷ t) split, (is, all))
      | inr other ↦ rw other ([], refl, tt)
    ]

-- What the code tests of a line of `len` bytes at the front of `p`, and takes from it.
abbrev matches : List ℕ → ℕ → List ℕ → Bool
matches p len name = ltb (length name) len && ((get_or p (length name) 0 == 58) && same_name p name)

abbrev taken : List ℕ → ℕ → List ℕ → List ℕ
taken p len name = take (len - length name - 1) (drop (length name + 1) p)

-- The line that matches.
matches-HasHeader :
    (front p name : List ℕ) (len : ℕ)
    → matches p len name ≡ true
    → (drop len p ≡ []) ⊎ ((next : List ℕ) × (drop len p ≡ 13 ∷ 10 ∷ next))
    → HasHeader (front ++ (13 ∷ 10 ∷ p)) name (trim_end (skip_spaces (taken p len name)))
matches-HasHeader front p name len e ends =
    let k = length name in
    let u = taken p len name in
    let colon : drop k p ≡ 58 ∷ drop (k + 1) p = drop-get_or k p (ground arith) in
    let (spaces, led, spaced) = skip_spaces_lem u in
    let (more, trimmed, more_spaced) = trim_end_lem (skip_spaces u) in
    let value = trim_end (skip_spaces u) in
    let rest = drop len p in
    let whole : (k + 1) + (len - k - 1) ≡ len = ground arith in
    let behind : drop (len - k - 1) (drop (k + 1) p) ≡ rest =
      drop-drop (len - k - 1) (k + 1) p ∙ ap (λ (n : ℕ). drop n p) whole in
    let value_line : drop (k + 1) p ≡ spaces ++ (value ++ (more ++ rest)) =
      sym (take-append-drop (len - k - 1) (drop (k + 1) p))
      ∙ ap (λ (t : List ℕ). u ++ t) behind
      ∙ ap (λ (t : List ℕ). t ++ rest) (led ∙ ap (λ (t : List ℕ). spaces ++ t) trimmed)
      ∙ append_assoc spaces (value ++ more) rest
      ∙ ap (λ (t : List ℕ). spaces ++ t) (append_assoc value more rest) in
    let line : p ≡ take k p ++ (58 ∷ (spaces ++ (value ++ (more ++ rest)))) =
      sym (take-append-drop k p)
      ∙ ap (λ (t : List ℕ). take k p ++ t) (colon ∙ ap (λ (t : List ℕ). 58 ∷ t) value_line) in
    record {
      front = front;
      label = take k p;
      spaces = spaces;
      more_spaces = more;
      rest = rest;
      split = ap (λ (t : List ℕ). front ++ (13 ∷ 10 ∷ t)) line;
      same = same_name-take p name (ground arith);
      spaced = spaced;
      more_spaced = more_spaced;
      ends = ends;
    }

drop_all : (p : List ℕ) → drop (length p) p ≡ []
drop_all [] = refl
drop_all (x ∷ p) = drop_all p

find_in_lines-HasHeader :
    (fuel : ℕ) (name front p value : List ℕ)
    → find_in_lines fuel name p ≡ some value
    → HasHeader (front ++ (13 ∷ 10 ∷ p)) name value
unfolding find_in_lines
find_in_lines-HasHeader zero name front p value e = absurd cc
find_in_lines-HasHeader (suc fuel) name front p value e = elim (Option-cases (find_crlf p)) [
  | inl nowhere ↦ elim (Bool-cases (matches p (length p) name)) [
    | inl here ↦
        let is : trim_end (skip_spaces (taken p (length p) name)) ≡ value = ground arith in
        subst (HasHeader (front ++ (13 ∷ 10 ∷ p)) name) is
          (matches-HasHeader front p name (length p) here (inl (drop_all p)))
    | inr other ↦ absurd (ground arith)
  ]
  | inr (n, found) ↦ elim (Bool-cases (matches p n name)) [
    | inl here ↦
        let is : trim_end (skip_spaces (taken p n name)) ≡ value = ground arith in
        subst (HasHeader (front ++ (13 ∷ 10 ∷ p)) name) is
          (matches-HasHeader front p name n here (inr (drop (n + 2) p, find_crlf-drop p n found)))
    | inr other ↦
        let later : find_in_lines fuel name (drop (n + 2) p) ≡ some value = ground arith in
        let place : (front ++ (13 ∷ 10 ∷ take n p)) ++ (13 ∷ 10 ∷ drop (n + 2) p)
            ≡ front ++ (13 ∷ 10 ∷ p) =
          append_assoc front (13 ∷ 10 ∷ take n p) (13 ∷ 10 ∷ drop (n + 2) p)
          ∙ ap (λ (t : List ℕ). front ++ (13 ∷ 10 ∷ t)) (crlf_split p n found) in
        subst (λ (t : List ℕ). HasHeader t name value) place
          (find_in_lines-HasHeader fuel name (front ++ (13 ∷ 10 ∷ take n p)) (drop (n + 2) p) value
            later)
  ]
]

pub find_header-HasHeader :
    (buf name value : List ℕ) → find_header buf name ≡ some value → HasHeader buf name value
unfolding find_header
find_header-HasHeader buf name value e = elim (Option-cases (find_crlf buf)) [
  | inl nowhere ↦ absurd (ground arith)
  | inr (n, found) ↦
      let later : find_in_lines (length buf) name (drop (n + 2) buf) ≡ some value = ground arith in
      subst (λ (t : List ℕ). HasHeader t name value) (crlf_split buf n found)
        (find_in_lines-HasHeader (length buf) name (take n buf) (drop (n + 2) buf) value later)
]

pub lists_token-HasToken :
    (buf name token : List ℕ)
    → lists_token (find_header buf name) token ≡ true
    → HasToken buf name token
unfolding HasToken
lists_token-HasToken buf name token e = elim (Option-cases (find_header buf name)) [
  | inl missing ↦ absurd (ground arith)
  | inr (value, found) ↦ (
    value,
    find_header-HasHeader buf name value found,
    header_has_token-Lists value token (ground arith),
  )
]
