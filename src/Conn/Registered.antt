-- ===== src/Conn/Registered.antt =====
-- The registry of src/conn.c holds the connections that are open, and nothing else.
use ws_server.Base.{
  ◌<◌, ◌≡◌, ◌≢◌, refl, sym, ap, ◌∙◌, false, none, some, [], ◌∷◌, ◌++◌, arith, ◌==◌, if◌then◌else◌,
  All, inl, inr, ◌⊎◌,
}
use ws_server.Base.Store.{Ptr, Store, write, write_hit, write_miss, first, has, ne_of_has}
use ws_server.Conn.{Conn}
use ws_server.Conn.Registry.{
  Entry, entry, Registry, set_prev, set_next, registry_remove, skip_forward, skip_back,
}
use ws_server.Conn.Links.{Cells, Linked, last_or, before_lem, behind_lem, front_apart, cons-ne}

-- What `registryRemove` leaves of the heap, for an entry between these two.
some_inj : {A : Type 0} {a b : A} → some a ≡ some b → a ≡ b
some_inj e = cc

pub record Unlinked (old new : Store Entry) (before behind : Ptr) : Type 0 where
  pub left :
      (e : Entry)
      → before ≢ 0
      → old before ≡ some e
      → new before ≡ some (record e { next = behind })
  pub right :
      (e : Entry)
      → behind ≢ 0
      → old behind ≡ some e
      → new behind ≡ some (record e { prev = before })
  pub same : (a : Ptr) → (before ≢ 0 → a ≢ before) → (behind ≢ 0 → a ≢ behind) → new a ≡ old a

abbrev pub relinked : Registry → Ptr → Store Entry → Registry
relinked r head entries = record r { head = head; entries = entries }

-- A neighbour is NULL or stands on the heap.
abbrev pub Stands : Store Entry → Ptr → Type 0
Stands entries p = (p ≡ 0) ⊎ ((e : Entry) × (entries p ≡ some e) × (p ≢ 0))

set_next_lem :
    (entries : Store Entry) (p v : Ptr) (e : Entry)
    → entries p ≡ some e
    → set_next entries p v ≡ some (write entries p (some (record e { next = v })))
unfolding set_next
set_next_lem entries p v e is = rw (is, set_next) refl

pub set_prev_lem :
    (entries : Store Entry) (p v : Ptr) (e : Entry)
    → entries p ≡ some e
    → set_prev entries p v ≡ some (write entries p (some (record e { prev = v })))
unfolding set_prev
set_prev_lem entries p v e is = rw (is, set_prev) refl

pub beq_zero : (p : Ptr) → p ≢ 0 → (p == 0) ≡ false
beq_zero p ne = ground arith

skip_forward_lem :
    (r : Registry) (before behind : Ptr)
    → Stands r.entries before
    → (new : Store Entry) × (skip_forward before behind r
        ≡ some (relinked r (if before == 0 then behind else r.head) new))
      × ((e : Entry)
          → before ≢ 0
          → r.entries before ≡ some e
          → new before ≡ some (record e { next = behind }))
      × ((a : Ptr) → (before ≢ 0 → a ≢ before) → new a ≡ r.entries a)
unfolding skip_forward
skip_forward_lem r before behind (inl z) =
    (r.entries, rw z refl, (λ e ne. absurd (ne z)), λ a ne. refl)
skip_forward_lem r before behind (inr (e, is, ne)) =
    let new = write r.entries before (some (record e { next = behind })) in
    (
      new,
      rw (beq_zero before ne) (rw (set_next_lem r.entries before behind e is) refl),
      (λ f nz at.
          write_hit r.entries before _
          ∙ (let same : f ≡ e = some_inj (sym at ∙ is) in
              ap (λ (g : Entry). some (record g { next = behind })) (sym same))),
      λ a other. write_miss r.entries before _ a (other ne),
    )

skip_back_lem :
    (r : Registry) (before behind : Ptr)
    → Stands r.entries behind
    → (new : Store Entry) × (skip_back before behind r ≡ some (record r { entries = new }))
      × ((e : Entry)
          → behind ≢ 0
          → r.entries behind ≡ some e
          → new behind ≡ some (record e { prev = before }))
      × ((a : Ptr) → (behind ≢ 0 → a ≢ behind) → new a ≡ r.entries a)
unfolding skip_back
skip_back_lem r before behind (inl z) =
    (r.entries, rw z refl, (λ e ne. absurd (ne z)), λ a ne. refl)
skip_back_lem r before behind (inr (e, is, ne)) =
    let new = write r.entries behind (some (record e { prev = before })) in
    (
      new,
      rw (beq_zero behind ne) (rw (set_prev_lem r.entries behind before e is) refl),
      (λ f nz at.
          write_hit r.entries behind _
          ∙ (let same : f ≡ e = some_inj (sym at ∙ is) in
              ap (λ (g : Entry). some (record g { prev = before })) (sym same))),
      λ a other. write_miss r.entries behind _ a (other ne),
    )

pub registry_remove_lem :
    (r : Registry) (p before behind : Ptr) (c : Conn)
    → r.entries p ≡ some (entry before behind c)
    → Stands r.entries before
    → Stands r.entries behind
    → (before ≢ 0 → before ≢ behind)
    → (behind ≢ 0 → behind ≢ before)
    → (new : Store Entry) × (registry_remove p r
        ≡ some (relinked r (if before == 0 then behind else r.head) new))
      × Unlinked r.entries new before behind
unfolding registry_remove
registry_remove_lem r p before behind c is standing standing' apart apart' =
    let (mid, ran, left, same) = skip_forward_lem r before behind standing in
    let still : Stands mid behind = elim standing' [
      | inl z ↦ inl z
      | inr (f, at, nz) ↦ inr (f, same behind (λ _. apart' nz) ∙ at, nz)
    ] in
    let (new, ran', right, same') =
      skip_back_lem (relinked r (if before == 0 then behind else r.head) mid) before behind still in
    (
      new,
      rw (is, registry_remove) (rw ran ran'),
      record {
        left = λ e nz at. same' before (λ _. apart nz) ∙ left e nz at;
        right = λ e nz at. right e nz (same behind (λ _. apart' nz) ∙ at);
        same = λ a ne ne'. same' a ne' ∙ same a ne;
      },
    )

-- The ids of these connections differ.
abbrev pub Distinct : Cells → Type 0
Distinct [] = Unit {0}
Distinct ((p, c) ∷ cs) = All (λ (q, d). d.id ≢ c.id) cs × Distinct cs

-- The registry holds these connections, newest first, and the heap no other; their ids differ, and
-- the next id is larger than each.
pub record Registers (r : Registry) (cs : Cells) : Type 0 where
  pub linked : Linked r.entries 0 cs
  pub head : r.head ≡ first cs
  pub unused : (a : Ptr) → has a cs ≡ false → r.entries a ≡ none
  pub below : All (λ (p, c). c.id < r.next_id) cs
  pub distinct : Distinct cs

pub All-remove :
    (P : Ptr × Conn → Type 0) (x : Ptr × Conn) (xs ys : Cells)
    → All P (xs ++ x ∷ ys)
    → All P (xs ++ ys)
All-remove P x [] ys h = h.1
All-remove P x (y ∷ xs) ys h = (h.0, All-remove P x xs ys h.1)

pub Distinct-remove :
    (x : Ptr × Conn) (xs ys : Cells) → Distinct (xs ++ x ∷ ys) → Distinct (xs ++ ys)
Distinct-remove x [] ys h = h.1
Distinct-remove x ((p, c) ∷ xs) ys h = (All-remove _ x xs ys h.0, Distinct-remove x xs ys h.1)

-- The two neighbours of an entry in the middle.
pub Stands-before :
    (entries : Store Entry) (p : Ptr) (c : Conn) (xs ys : Cells)
    → Linked entries 0 (xs ++ (p, c) ∷ ys)
    → Stands entries (last_or 0 xs)
Stands-before entries p c [] ys l = inl refl
Stands-before entries p c (x ∷ xs) ys l =
    let (nz, (e, at), inside) = before_lem entries 0 p c (x ∷ xs) ys l cons-ne in inr (e, at, nz)

pub Stands-behind :
    (entries : Store Entry) (p : Ptr) (c : Conn) (xs ys : Cells)
    → Linked entries 0 (xs ++ (p, c) ∷ ys)
    → Stands entries (first ys)
Stands-behind entries p c xs [] l = inl refl
Stands-behind entries p c xs (y ∷ ys) l =
    let (nz, (e, at), inside) = behind_lem entries 0 p c xs (y ∷ ys) l cons-ne in inr (e, at, nz)

pub neighbours_apart :
    (entries : Store Entry) (p : Ptr) (c : Conn) (xs ys : Cells)
    → Linked entries 0 (xs ++ (p, c) ∷ ys)
    → last_or 0 xs ≢ 0
    → last_or 0 xs ≢ first ys
neighbours_apart entries p c [] ys l nz = absurd (nz refl)
neighbours_apart entries p c (x ∷ xs) [] l nz = nz
neighbours_apart entries p c (x ∷ xs) (y ∷ ys) l nz =
    let (nz', at, inside) = before_lem entries 0 p c (x ∷ xs) (y ∷ ys) l cons-ne in
    let (nz'', at', inside') = behind_lem entries 0 p c (x ∷ xs) (y ∷ ys) l cons-ne in
    λ e.
      ne_of_has _ _ (y ∷ ys) inside' (front_apart entries 0 p _ c (x ∷ xs) (y ∷ ys) l inside)
        (sym e)

pub head_remove :
    (p : Ptr) (c : Conn) (entries : Store Entry) (xs ys : Cells)
    → Linked entries 0 (xs ++ (p, c) ∷ ys)
    → (if last_or 0 xs == 0 then first ys else first (xs ++ (p, c) ∷ ys)) ≡ first (xs ++ ys)
head_remove p c entries [] ys l = refl
head_remove p c entries ((q, d) ∷ xs) ys l =
    let (nz, at, inside) = before_lem entries 0 p c ((q, d) ∷ xs) ys l cons-ne in
    rw (beq_zero (last_or q xs) nz) refl
