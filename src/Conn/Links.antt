-- ===== src/Conn/Links.antt =====
-- The list of the registry of src/conn.c: entries at distinct addresses, linked both ways.
use ws_server.Base.{
  ◌≡◌, ◌≢◌, refl, ap, ◌∙◌, true, false, none, some, List, [], ◌∷◌, ◌++◌, arith, ◌==◌, Bool-cases,
  inl, inr,
}
use ws_server.Base.Store.{Ptr, Store, first, has, has-append, ne_of_has}
use ws_server.Conn.{Conn}
use ws_server.Conn.Registry.{Entry, entry}

abbrev pub Cells : Type 0
Cells = List (Ptr × Conn)

-- From `prev` on, these entries are linked both ways, and the last one has no next.
abbrev pub Linked : Store Entry → Ptr → Cells → Type 0
Linked entries prev [] = Unit {0}
Linked entries prev ((p, c) ∷ cs) =
    (p ≢ 0)
    × (entries p ≡ some (entry prev (first cs) c))
    × (has p cs ≡ false)
    × Linked entries p cs

-- The address in front of what follows these entries.
abbrev pub last_or : Ptr → Cells → Ptr
last_or prev [] = prev
last_or prev ((p, c) ∷ cs) = last_or p cs

-- The list survives any change that spares its own entries.
pub Linked-frame :
    (old new : Store Entry) (prev : Ptr) (cs : Cells)
    → Linked old prev cs
    → ((a : Ptr) → has a cs ≡ true → new a ≡ old a)
    → Linked new prev cs
Linked-frame old new prev [] l same = tt
Linked-frame old new prev ((p, c) ∷ cs) (nz, is, out, rest) same = (
  nz,
  same p (ground arith) ∙ is,
  out,
  Linked-frame old new p cs rest (λ a i. same a (ground arith)),
)

pub has-zero :
    (entries : Store Entry) (prev : Ptr) (cs : Cells) → Linked entries prev cs → has 0 cs ≡ false
has-zero entries prev [] l = refl
has-zero entries prev ((p, c) ∷ cs) (nz, is, out, rest) =
    let later : has 0 cs ≡ false = has-zero entries p cs rest in ground arith

pub has-none :
    (a : Ptr) (entries : Store Entry) (prev : Ptr) (cs : Cells)
    → Linked entries prev cs
    → entries a ≡ none
    → has a cs ≡ false
has-none a entries prev [] l free = refl
has-none a entries prev ((p, c) ∷ cs) (nz, is, out, rest) free =
    let later : has a cs ≡ false = has-none a entries p cs rest free in ground arith

-- A list that hangs behind `prev` hangs behind another address, once its first entry says so.
pub Linked-behind :
    (old new : Store Entry) (prev prev' : Ptr) (cs : Cells)
    → Linked old prev cs
    → ((c : Conn) (next : Ptr)
        → old (first cs) ≡ some (entry prev next c)
        → new (first cs) ≡ some (entry prev' next c))
    → ((a : Ptr) → has a cs ≡ true → a ≢ first cs → new a ≡ old a)
    → Linked new prev' cs
Linked-behind old new prev prev' [] l at same = tt
Linked-behind old new prev prev' ((p, c) ∷ cs) (nz, is, out, rest) at same = (
  nz,
  at c (first cs) is,
  out,
  Linked-frame old new p cs rest (λ a i. same a (ground arith) (ne_of_has a p cs i out)),
)

-- An entry in the middle of the list, with what its neighbours are.
pub Linked-middle :
    (entries : Store Entry) (prev p : Ptr) (c : Conn) (xs ys : Cells)
    → Linked entries prev (xs ++ (p, c) ∷ ys)
    → (entries p ≡ some (entry (last_or prev xs) (first ys) c))
      × (has p xs ≡ false)
      × (has p ys ≡ false)
      × (p ≢ 0)
Linked-middle entries prev p c [] ys (nz, is, out, rest) = (is, refl, out, nz)
Linked-middle entries prev p c ((q, d) ∷ xs) ys (nz, is, out, rest) =
    let (at, before, behind, nz') = Linked-middle entries q p c xs ys rest in
    (at, ground (arith, has-append q xs ((p, c) ∷ ys)), behind, nz')

-- An address that is not in such a list is none of its parts.
pub has-parts :
    (a p : Ptr) (c : Conn) (xs ys : Cells)
    → has a (xs ++ (p, c) ∷ ys) ≡ false
    → (has a xs ≡ false) × (a ≢ p) × (has a ys ≡ false)
has-parts a p c xs ys out = ground (arith, has-append a xs ((p, c) ∷ ys))

first-ne : (a : Ptr) (cs : Cells) → a ≢ 0 → has a cs ≡ false → a ≢ first cs
first-ne a [] nz out = nz
first-ne a ((p, c) ∷ cs) nz out = ground arith

last_or-ne :
    (a prev q : Ptr) (d : Conn) (cs : Cells)
    → has a ((q, d) ∷ cs) ≡ false
    → a ≢ last_or prev ((q, d) ∷ cs)
last_or-ne a prev q d [] out = ground arith
last_or-ne a prev q d ((r, e) ∷ cs) out = last_or-ne a q r e cs (ground arith)

pub cons-ne : {c : Ptr × Conn} {cs : Cells} → c ∷ cs ≢ []
cons-ne e = cc

-- The entry at the front of what stays, after the removal of `p` somewhere behind it.
relinked :
    (old new : Store Entry) (prev q p : Ptr) (d c : Conn) (xs ys : Cells)
    → q ≢ 0
    → old q ≡ some (entry prev (first (xs ++ (p, c) ∷ ys)) d)
    → has q (xs ++ (p, c) ∷ ys) ≡ false
    → ((e : Entry)
        → old (last_or q xs) ≡ some e
        → new (last_or q xs) ≡ some (record e { next = first ys }))
    → ((a : Ptr) → a ≢ p → a ≢ last_or q xs → a ≢ first ys → new a ≡ old a)
    → new q ≡ some (entry prev (first (xs ++ ys)) d)
relinked old new prev q p d c [] ys nz is out left same = left (entry prev p d) is
relinked old new prev q p d c ((r, e) ∷ xs) ys nz is out left same =
    let (front, ne, behind) = has-parts q p c ((r, e) ∷ xs) ys out in
    same q ne (last_or-ne q q r e xs front) (first-ne q ys nz behind) ∙ is

-- Without the entry, once its neighbours are linked to each other.
pub Linked-remove :
    (old new : Store Entry) (prev p : Ptr) (c : Conn) (xs ys : Cells)
    → Linked old prev (xs ++ (p, c) ∷ ys)
    → has prev (xs ++ (p, c) ∷ ys) ≡ false
    → ((e : Entry)
        → xs ≢ []
        → old (last_or prev xs) ≡ some e
        → new (last_or prev xs) ≡ some (record e { next = first ys }))
    → ((e : Entry)
        → ys ≢ []
        → old (first ys) ≡ some e
        → new (first ys) ≡ some (record e { prev = last_or prev xs }))
    → ((a : Ptr) → a ≢ p → a ≢ last_or prev xs → a ≢ first ys → new a ≡ old a)
    → Linked new prev (xs ++ ys)
Linked-remove old new prev p c [] [] l out left right same = tt
Linked-remove old new prev p c [] ((q, d) ∷ ys) (nz, is, apart, rest) out left right same =
    Linked-behind old new p prev ((q, d) ∷ ys) rest (λ c' next e. right (entry p next c') cons-ne e)
      (λ a i ne.
        same a (ne_of_has a p ((q, d) ∷ ys) i apart)
          (ne_of_has a prev ((p, c) ∷ (q, d) ∷ ys) (ground arith) out) ne)
Linked-remove old new prev p c ((q, d) ∷ xs) ys (nz, is, apart, rest) out left right same =
    let (front, ne, behind) = has-parts q p c xs ys apart in
    (
      nz,
      relinked old new prev q p d c xs ys nz is apart (λ e. left e cons-ne) same,
      ground (arith, has-append q xs ys),
      Linked-remove old new q p c xs ys rest apart (λ e ne'. left e cons-ne) right same,
    )

-- The neighbours of an entry in the middle stand on the heap, apart from each other and from it.
pub before_lem :
    (entries : Store Entry) (prev p : Ptr) (c : Conn) (xs ys : Cells)
    → Linked entries prev (xs ++ (p, c) ∷ ys)
    → xs ≢ []
    → (last_or prev xs ≢ 0)
      × ((e : Entry) × (entries (last_or prev xs) ≡ some e))
      × (has (last_or prev xs) xs ≡ true)
before_lem entries prev p c [] ys l ne = absurd (ne refl)
before_lem entries prev p c ((q, d) ∷ []) ys (nz, is, apart, rest) ne =
    (nz, (entry prev p d, is), ground arith)
before_lem entries prev p c ((q, d) ∷ (r, f) ∷ xs) ys (nz, is, apart, rest) ne =
    let (nz', at, inside) = before_lem entries q p c ((r, f) ∷ xs) ys rest cons-ne in
    (nz', at, ground arith)

pub behind_lem :
    (entries : Store Entry) (prev p : Ptr) (c : Conn) (xs ys : Cells)
    → Linked entries prev (xs ++ (p, c) ∷ ys)
    → ys ≢ []
    → (first ys ≢ 0) × ((e : Entry) × (entries (first ys) ≡ some e)) × (has (first ys) ys ≡ true)
behind_lem entries prev p c [] [] l ne = absurd (ne refl)
behind_lem entries prev p c [] ((q, d) ∷ ys) (nz, is, apart, (nz', is', apart', rest)) ne =
    (nz', (entry p (first ys) d, is'), ground arith)
behind_lem entries prev p c ((q, d) ∷ xs) ys (nz, is, apart, rest) ne =
    behind_lem entries q p c xs ys rest ne

pub front_apart :
    (entries : Store Entry) (prev p a : Ptr) (c : Conn) (xs ys : Cells)
    → Linked entries prev (xs ++ (p, c) ∷ ys)
    → has a xs ≡ true
    → has a ys ≡ false
front_apart entries prev p a c [] ys l inside = cc
front_apart entries prev p a c ((q, d) ∷ xs) ys (nz, is, apart, rest) inside =
    let (front, ne, behind) = has-parts q p c xs ys apart in
    elim (Bool-cases (a == q)) [
      | inl here ↦ let e : a ≡ q = ground arith in ap (λ b. has b ys) e ∙ behind
      | inr other ↦ front_apart entries q p a c xs ys rest (ground arith)
    ]
