-- ===== src/Http/Tokens.antt =====
-- What it means that the value of a header lists a token, apart from the loop of `httpHeaderHasToken`
-- of src/http.c.
use ws_server.Base.{
  ℕ, zero, suc, ◌≡◌, refl, ap, sym, ◌∙◌, ◌⊎◌, inl, inr, true, false, ◌&&◌, ◌||◌, List, [], ◌∷◌,
  ◌++◌, append_assoc, if◌then◌else◌, ltb, ◌==◌, length, drop, All, Bool-cases, arith,
}
use mathlib.Core.Path.{subst}
use ws_server.Http.{
  fold_case, same_name, trim_end, skip_separators, until, has_token, header_has_token,
}

-- The letters of the one are those of the other, but for their case.
unfoldable pub SameText : List ℕ → List ℕ → Type 0
SameText [] [] = Unit {0}
SameText (x ∷ xs) (y ∷ ys) = (fold_case x ≡ fold_case y) × SameText xs ys
SameText _ _ = ⊥

unfoldable pub IsSpace : ℕ → Type 0
IsSpace c = c ≡ 32

pub IsSeparator : ℕ → Type 0
IsSeparator c = (c ≡ 32) ⊎ (c ≡ 44)

-- `text` is an item of the list: it stands at the front or behind a comma, with spaces and empty items
-- between, and the end or a comma follows it, behind spaces.
pub record Lists (value text : List ℕ) : Type 0 where
  pub before : List ℕ
  pub separators : List ℕ
  pub item : List ℕ
  pub spaces : List ℕ
  pub after : List ℕ
  pub split : value ≡ before ++ (separators ++ (item ++ (spaces ++ after)))
  pub begins : (before ≡ []) ⊎ ((rest : List ℕ) × (separators ≡ 44 ∷ rest))
  pub separated : All IsSeparator separators
  pub same : SameText item text
  pub spaced : All IsSpace spaces
  pub ends : (after ≡ []) ⊎ ((rest : List ℕ) × (after ≡ 44 ∷ rest))

pub same_name-SameText :
    (xs ys : List ℕ) → length xs ≡ length ys → same_name xs ys ≡ true → SameText xs ys
unfolding same_name SameText
same_name-SameText [] [] l e = tt
same_name-SameText [] (y ∷ ys) l e = absurd (omega arith)
same_name-SameText (x ∷ xs) [] l e = absurd (omega arith)
same_name-SameText (x ∷ xs) (y ∷ ys) l e =
    (ground arith, same_name-SameText xs ys (omega arith) (ground arith))

-- The separators that `skip_separators` takes away.
skipped : List ℕ → List ℕ
skipped [] = []
skipped (c ∷ v) = let rest = skipped v in if (c == 32) || (c == 44) then c ∷ rest else []

skipped_lem : (v : List ℕ) → (v ≡ skipped v ++ skip_separators v) × All IsSeparator (skipped v)
unfolding skipped skip_separators IsSeparator
skipped_lem [] = (refl, tt)
skipped_lem (c ∷ v) =
    let (split, all) = skipped_lem v in
    elim (Bool-cases (c == 32)) [
      | inl space ↦
          let is : c ≡ 32 = ground arith in
          rw is (ap (λ (t : List ℕ). 32 ∷ t) split, (inl refl, all))
      | inr other ↦ elim (Bool-cases (c == 44)) [
        | inl comma ↦
            let is : c ≡ 44 = ground arith in
            rw is (ap (λ (t : List ℕ). 44 ∷ t) split, (inr refl, all))
        | inr neither ↦ rw (other, neither) (refl, tt)
      ]
    ]

pub trim_end_lem :
    (v : List ℕ) → (spaces : List ℕ) × (v ≡ trim_end v ++ spaces) × All IsSpace spaces
unfolding trim_end IsSpace
trim_end_lem [] = ([], refl, tt)
trim_end_lem (c ∷ v) =
    let (spaces, split, all) = trim_end_lem v in
    elim (Bool-cases ((c == 32) && (length (trim_end v) == 0))) [
      | inl last ↦
          let is : c ≡ 32 = ground arith in
          let empty : trim_end v ≡ [] = nil_of_length (trim_end v) (ground arith) in
          rw last (
            c ∷ spaces,
            ap (λ (t : List ℕ). c ∷ t) (split ∙ ap (λ (t : List ℕ). t ++ spaces) empty),
            (is, all),
          )
      | inr word ↦ rw word (spaces, ap (λ (t : List ℕ). c ∷ t) split, all)
    ]
  where
    nil_of_length : (xs : List ℕ) → length xs ≡ 0 → xs ≡ []
    nil_of_length [] e = refl
    nil_of_length (x ∷ xs) e = absurd (omega arith)

until_split :
    (stop : ℕ) (v : List ℕ)
    → (let rest = drop (length (until stop v)) v in
        (v ≡ until stop v ++ rest) × ((rest ≡ []) ⊎ ((more : List ℕ) × (rest ≡ stop ∷ more))))
unfolding until
until_split stop [] = (refl, inl refl)
until_split stop (c ∷ v) =
    let (split, ends) = until_split stop v in
    elim (Bool-cases (c == stop)) [
      | inl here ↦
          let is : c ≡ stop = ground arith in rw here (refl, inr (v, ap (λ (x : ℕ). x ∷ v) is))
      | inr there ↦ rw there (ap (λ (t : List ℕ). c ∷ t) split, ends)
    ]

-- A place from which the loop goes on: the front of the value, or a comma.
abbrev Starts : List ℕ → List ℕ → Type 0
Starts p v = (p ≡ []) ⊎ ((rest : List ℕ) × (v ≡ 44 ∷ rest))

skipped-comma : (p v : List ℕ) → Starts p v → (p ≡ []) ⊎ ((rest : List ℕ) × (skipped v ≡ 44 ∷ rest))
unfolding skipped
skipped-comma p v (inl front) = inl front
skipped-comma p v (inr (rest, is)) = inr (skipped rest, ap skipped is)

module _ (token : List ℕ) (p v : List ℕ) where
  abbrev item : List ℕ
  item = skip_separators v

  abbrev word : List ℕ
  word = trim_end (until 44 item)

  abbrev behind : List ℕ
  behind = drop (length (until 44 item)) item

  this_one : Starts p v → SameText word token → Lists (p ++ v) token
  this_one start same =
      let (split, separated) = skipped_lem v in
      let (spaces, trimmed, spaced) = trim_end_lem (until 44 item) in
      let (cut, ends) = until_split 44 item in
      let joined : item ≡ word ++ (spaces ++ behind) =
        cut ∙ ap (λ (t : List ℕ). t ++ behind) trimmed ∙ append_assoc word spaces behind in
      record {
        before = p;
        separators = skipped v;
        item = word;
        spaces = spaces;
        after = behind;
        split = ap (λ (t : List ℕ). p ++ t) (split ∙ ap (λ (t : List ℕ). skipped v ++ t) joined);
        begins = skipped-comma p v start;
        separated = separated;
        same = same;
        spaced = spaced;
        ends = ends;
      }

  -- The place of the next round.
  next_place : (p ++ (skipped v ++ until 44 item)) ++ behind ≡ p ++ v
  next_place =
      let (split, separated) = skipped_lem v in
      let (cut, ends) = until_split 44 item in
      append_assoc p (skipped v ++ until 44 item) behind
      ∙ ap (λ (t : List ℕ). p ++ t)
          (append_assoc (skipped v) (until 44 item) behind
            ∙ ap (λ (t : List ℕ). skipped v ++ t) (sym cut)
            ∙ sym split)

has_token-nil : (fuel : ℕ) (token : List ℕ) → has_token fuel token [] ≡ false
unfolding has_token
has_token-nil zero token = refl
has_token-nil (suc fuel) token = refl

has_token-Lists :
    (fuel : ℕ) (token p v : List ℕ)
    → Starts p v
    → has_token fuel token v ≡ true
    → Lists (p ++ v) token
unfolding has_token
has_token-Lists zero token p v start e = absurd cc
has_token-Lists (suc fuel) token p [] start e = absurd cc
has_token-Lists (suc fuel) token p (c ∷ v) start e =
    let w = word token p (c ∷ v) in
    let found = ltb 0 (length w) && ((length w == length token) && same_name w token) in
    elim (Bool-cases found) [
      | inl here ↦
          this_one token p (c ∷ v) start (same_name-SameText w token (ground arith) (ground arith))
      | inr there ↦
          let more : has_token fuel token (behind token p (c ∷ v)) ≡ true = ground arith in
          let (cut, ends) = until_split 44 (item token p (c ∷ v)) in
          elim ends [
            | inl none_left ↦
                absurd
                  (let no = ap (has_token fuel token) none_left ∙ has_token-nil fuel token in cc)
            | inr comma ↦
                subst (λ (t : List ℕ). Lists t token) (next_place token p (c ∷ v))
                  (has_token-Lists fuel token _ (behind token p (c ∷ v)) (inr comma) more)
          ]
    ]

pub header_has_token-Lists : (v token : List ℕ) → header_has_token v token ≡ true → Lists v token
unfolding header_has_token
header_has_token-Lists v token e = has_token-Lists (length v) token [] v (inl refl) e
