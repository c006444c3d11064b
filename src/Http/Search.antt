-- ===== src/Http/Search.antt =====
-- `httpFindHeaderEnd` of src/http.c finds the first blank line.
use ws_server.Base.{
  ◌↔◌, ℕ, zero, suc, ◌≤◌, ◌≡◌, refl, true, false, Option, none, some, inl, inr, List, [], ◌∷◌, take,
  drop, Bool-cases, arith,
}
use ws_server.Http.{find_header_end, begins_blank, map_suc}

-- The end of the headers: the four bytes CR LF CR LF begin at index `i`.
pub EndsAt : List ℕ → ℕ → Type 0
EndsAt p i = take 4 (drop i p) ≡ 13 ∷ 10 ∷ 13 ∷ 10 ∷ []

begins_blank_iff : (p : List ℕ) → (begins_blank p ≡ true) ↔ EndsAt p 0
unfolding EndsAt
begins_blank_iff [] = ground arith
begins_blank_iff (a ∷ []) = ground arith
begins_blank_iff (a ∷ b ∷ []) = ground arith
begins_blank_iff (a ∷ b ∷ c ∷ []) = ground arith
begins_blank_iff (a ∷ b ∷ c ∷ d ∷ p) = ground arith

EndsAt-suc : (x : ℕ) (p : List ℕ) (i : ℕ) → EndsAt (x ∷ p) (suc i) ≡ EndsAt p i
unfolding EndsAt
EndsAt-suc x p i = refl

-- What a search for the end of the headers may answer: the first such index, or that none is there.
pub FindsFirst : List ℕ → Option ℕ → Type 0
FindsFirst p none = (j : ℕ) → EndsAt p j → ⊥
FindsFirst p (some i) = EndsAt p i × ((j : ℕ) → EndsAt p j → i ≤ j)

no_end : (j : ℕ) → EndsAt [] j → ⊥
unfolding EndsAt
no_end zero e = ground arith
no_end (suc j) e = ground arith

later :
    (x : ℕ) (p : List ℕ) (r : Option ℕ)
    → begins_blank (x ∷ p) ≡ false
    → FindsFirst p r
    → FindsFirst (x ∷ p) (map_suc r)
unfolding FindsFirst EndsAt
later x p none other f = nowhere
  where
    nowhere : (j : ℕ) → EndsAt (x ∷ p) j → ⊥
    nowhere zero e = ground (arith, (begins_blank_iff (x ∷ p)).1 e)
    nowhere (suc j) e = f j e
later x p (some i) other (here, first) = (here, least)
  where
    least : (j : ℕ) → EndsAt (x ∷ p) j → suc i ≤ j
    least zero e = absurd (ground (arith, (begins_blank_iff (x ∷ p)).1 e))
    least (suc j) e = omega (arith, first j e)

-- `httpFindHeaderEnd` finds the first blank line: the index that it returns is the least at which
-- CR LF CR LF stands, and it returns none only where these bytes stand nowhere.
pub find_header_end-FindsFirst : (p : List ℕ) → FindsFirst p (find_header_end p)
unfolding find_header_end FindsFirst
find_header_end-FindsFirst [] = no_end
find_header_end-FindsFirst (x ∷ p) = elim (Bool-cases (begins_blank (x ∷ p))) [
  | inl blank ↦ rw blank ((begins_blank_iff (x ∷ p)).0 blank, λ j e. omega arith)
  | inr other ↦ rw other (later x p (find_header_end p) other (find_header_end-FindsFirst p))
]
