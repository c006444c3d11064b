-- ===== src/Conn/Closing.antt =====
-- `connDestroy` and `connClose` of src/conn.c.
use ws_server.Base.{
  ℕ, ◌<◌, ◌≡◌, ◌≢◌, refl, sym, ap, ◌∙◌, false, Option, none, some, List, [], ◌∷◌, ◌++◌, append-nil,
  arith, ◌==◌, if◌then◌else◌, Bool-cases, inl, inr,
}
use ws_server.Base.Store.{
  Ptr, Store, write, write_hit, write_miss, first, has, has-append, ne_of_has,
}
use ws_server.Agg.Message.{Msg}
use ws_server.Conn.{Conn}
use ws_server.Conn.Registry.{Entry, entry, Registry, conn_free_resources, conn_destroy, conn_close}
use ws_server.Conn.Links.{
  Cells, Linked, last_or, Linked-middle, Linked-remove, has-zero, before_lem, behind_lem, cons-ne,
}
use ws_server.Conn.Registered.{
  Unlinked, relinked, registry_remove_lem, beq_zero, All-remove, Distinct-remove, Registers,
  Stands-before, Stands-behind, neighbours_apart, head_remove,
}

-- What is freed, and taken out of an epoll, along with a connection.
abbrev pub pending : Conn → List Msg
pending c = elim c.pending_msg [ none ↦ [] | some m ↦ m ∷ [] ]

abbrev pub watched_by : Conn → List (ℕ × ℕ)
watched_by c = elim c.epollfd [ none ↦ [] | some ep ↦ (ep, c.fd) ∷ [] ]

pub append_option {ℓ κ} :
    {A : Type ℓ} {B : Type κ} (o : Option B) (f : B → A) (xs : List A)
    → (elim o as (λ _. List A) [ none ↦ xs | some b ↦ xs ++ f b ∷ [] ])
      ≡ xs ++ (elim o as (λ _. List A) [ none ↦ [] | some b ↦ f b ∷ [] ])
append_option none f xs = sym (append-nil xs)
append_option (some b) f xs = refl

not-before :
    (entries : Store Entry) (p a : Ptr) (c : Conn) (xs ys : Cells)
    → Linked entries 0 (xs ++ (p, c) ∷ ys)
    → has a xs ≡ false
    → last_or 0 xs ≢ 0
    → a ≢ last_or 0 xs
not-before entries p a c [] ys l out nz = absurd (nz refl)
not-before entries p a c (x ∷ xs) ys l out nz =
    let (nz', at, inside) = before_lem entries 0 p c (x ∷ xs) ys l cons-ne in
    λ e. ne_of_has _ a (x ∷ xs) inside out (sym e)

not-behind : (a : Ptr) (ys : Cells) → has a ys ≡ false → first ys ≢ 0 → a ≢ first ys
not-behind a [] out nz = absurd (nz refl)
not-behind a ((q, d) ∷ ys) out nz = ground arith

-- The heap and the head after `registryRemove`, with the entry freed.
removed_Registers :
    (r : Registry) (new : Store Entry) (p : Ptr) (c : Conn) (xs ys : Cells) (closed : List ℕ)
    (deleted : List (ℕ × ℕ)) (freed : List Msg)
    → Registers r (xs ++ (p, c) ∷ ys)
    → Unlinked r.entries new (last_or 0 xs) (first ys)
    → Registers
        (record r {
          entries = write new p none;
          head = if last_or 0 xs == 0 then first ys else r.head;
          closed = closed;
          deleted = deleted;
          freed = freed;
        })
        (xs ++ ys)
removed_Registers r new p c xs ys closed deleted freed v u =
    let (at, in_front, behind, nz) = Linked-middle r.entries 0 p c xs ys v.linked in
    let kept : (a : Ptr) → a ≢ p → write new p none a ≡ new a =
      λ a ne. write_miss new p none a ne in
    record {
      linked =
          Linked-remove r.entries (write new p none) 0 p c xs ys v.linked
            (has-zero r.entries 0 (xs ++ (p, c) ∷ ys) v.linked)
            (λ e ne is.
              let (nz, at, inside) = before_lem r.entries 0 p c xs ys v.linked ne in
              kept _ (ne_of_has _ p xs inside in_front) ∙ u.left e nz is)
            (λ e ne is.
              let (nz, at, inside) = behind_lem r.entries 0 p c xs ys v.linked ne in
              kept _ (ne_of_has _ p ys inside behind) ∙ u.right e nz is)
            (λ a ne ne' ne''. kept a ne ∙ u.same a (λ _. ne') (λ _. ne''));
      head =
          ap (λ h. if last_or 0 xs == 0 then first ys else h) v.head
          ∙ head_remove p c r.entries xs ys v.linked;
      unused = λ a out. elim (Bool-cases (a == p)) [
        | inl here ↦ let e : a ≡ p = ground arith in ap (write new p none) e ∙ write_hit new p none
        | inr other ↦
            let before : has a xs ≡ false = ground (arith, has-append a xs ys) in
            let after : has a ys ≡ false = ground (arith, has-append a xs ys) in
            kept a (λ e. ground arith)
            ∙ u.same a (λ nz. not-before r.entries p a c xs ys v.linked before nz)
                (λ nz. not-behind a ys after nz)
            ∙ v.unused a (ground (arith, has-append a xs ((p, c) ∷ ys)))
      ];
      below = All-remove (λ (q, d). d.id < r.next_id) (p, c) xs ys v.below;
      distinct = Distinct-remove (p, c) xs ys v.distinct;
    }

pub conn_free_resources_lem :
    (r : Registry) (p : Ptr) (e : Entry)
    → r.entries p ≡ some e
    → conn_free_resources p r
      ≡ some (record r {
        entries = write r.entries p none;
        freed = elim e.conn.pending_msg [ none ↦ r.freed | some m ↦ r.freed ++ m ∷ [] ];
      })
unfolding conn_free_resources
conn_free_resources_lem r p e is = rw (is, conn_free_resources) refl

-- `connDestroy` of a connection in the registry.
conn_destroy_lem :
    (r : Registry) (p : Ptr) (c : Conn) (xs ys : Cells)
    → Registers r (xs ++ (p, c) ∷ ys)
    → (r' : Registry) × (conn_destroy p r ≡ some r')
      × Registers r' (xs ++ ys)
      × ((r'.closed ≡ r.closed)
          × (r'.deleted ≡ r.deleted)
          × (r'.freed ≡ r.freed ++ pending c)
          × (r'.next_id ≡ r.next_id))
unfolding conn_destroy
conn_destroy_lem r p c xs ys v =
    let (at, in_front, behind, nz) = Linked-middle r.entries 0 p c xs ys v.linked in
    let apart = neighbours_apart r.entries p c xs ys v.linked in
    let (new, ran, u) =
      registry_remove_lem r p (last_or 0 xs) (first ys) c at
        (Stands-before r.entries p c xs ys v.linked) (Stands-behind r.entries p c xs ys v.linked)
        apart (λ nz' e. apart (λ z. nz' (e ∙ z)) (sym e)) in
    let head = if last_or 0 xs == 0 then first ys else r.head in
    let freed : List Msg = elim c.pending_msg [ none ↦ r.freed | some m ↦ r.freed ++ m ∷ [] ] in
    let still : new p ≡ some (entry (last_or 0 xs) (first ys) c) =
      u.same p (not-before r.entries p p c xs ys v.linked in_front) (not-behind p ys behind) ∙ at in
    (
      record r { entries = write new p none; head = head; freed = freed },
      rw (beq_zero p nz)
          (rw (ran, conn_destroy) (conn_free_resources_lem (relinked r head new) p _ still)),
      removed_Registers r new p c xs ys r.closed r.deleted freed v u,
      (refl, refl, append_option c.pending_msg (λ m. m) r.freed, refl),
    )

-- `connClose` of any connection of a well-formed registry: it does not fault, the descriptor is
-- taken out of its epoll, if it is in one, and closed, each once, the message that it still held is
-- freed, and the registry goes on with the other connections, in the same order.
pub conn_close-Registers :
    (r : Registry) (p : Ptr) (c : Conn) (xs ys : Cells)
    → Registers r (xs ++ (p, c) ∷ ys)
    → (r' : Registry) × (conn_close p r ≡ some r')
      × Registers r' (xs ++ ys)
      × ((r'.closed ≡ r.closed ++ c.fd ∷ [])
          × (r'.deleted ≡ r.deleted ++ watched_by c)
          × (r'.freed ≡ r.freed ++ pending c)
          × (r'.next_id ≡ r.next_id))
unfolding conn_close
conn_close-Registers r p c xs ys v =
    let (at, in_front, behind, nz) = Linked-middle r.entries 0 p c xs ys v.linked in
    let deleted : List (ℕ × ℕ) = elim c.epollfd [
      | none ↦ r.deleted
      | some ep ↦ r.deleted ++ (ep, c.fd) ∷ []
    ] in
    let shut = record r { deleted = deleted; closed = r.closed ++ c.fd ∷ [] } in
    let (r', ran, v', (closed, out, freed, next)) = conn_destroy_lem shut p c xs ys (record {
      linked = v.linked;
      head = v.head;
      unused = v.unused;
      below = v.below;
      distinct = v.distinct;
    }) in
    (
      r',
      rw (beq_zero p nz) (rw (at, conn_close) ran),
      v',
      (closed, out ∙ append_option c.epollfd (λ ep. (ep, c.fd)) r.deleted, freed, next),
    )
