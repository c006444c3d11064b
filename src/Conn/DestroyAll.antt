-- ===== src/Conn/DestroyAll.antt =====
-- `registryDestroyAll` of src/conn.c closes and frees every connection once.
use ws_server.Base.{
  ℕ, zero, suc, ◌<◌, ◌≡◌, refl, sym, ap, ◌∙◌, true, false, none, some, List, [], ◌∷◌, ◌++◌,
  append-nil, append_assoc, arith, length, Bool-cases, inl, inr,
}
use ws_server.Base.Store.{Ptr, write, write_hit, write_miss, first, has, ne_of_has}
use ws_server.Agg.Message.{Msg}
use ws_server.Conn.Registry.{entry, Registry, destroy_from, registry_destroy_all}
use ws_server.Conn.Links.{Cells, Linked, Linked-frame}
use ws_server.Conn.Registered.{beq_zero, Registers}
use ws_server.Conn.Closing.{pending, append_option, conn_free_resources_lem}

-- The descriptors of these connections, and the messages that they hold.
abbrev pub fds : Cells → List ℕ
fds [] = []
fds ((p, c) ∷ cs) = c.fd ∷ fds cs

abbrev pub all_pending : Cells → List Msg
all_pending [] = []
all_pending ((p, c) ∷ cs) = pending c ++ all_pending cs

-- What the loop leaves, from entries that are linked.
record Emptied (r r' : Registry) (cs : Cells) : Type 0 where
  closed : r'.closed ≡ r.closed ++ fds cs
  freed : r'.freed ≡ r.freed ++ all_pending cs
  head : r'.head ≡ r.head
  gone : (a : Ptr) → has a cs ≡ true → r'.entries a ≡ none
  same : (a : Ptr) → has a cs ≡ false → r'.entries a ≡ r.entries a

destroy_from-Emptied :
    (fuel : ℕ) (r : Registry) (prev : Ptr) (cs : Cells)
    → Linked r.entries prev cs
    → length cs < fuel
    → (r' : Registry) × (destroy_from fuel (first cs) r ≡ some r') × Emptied r r' cs
unfolding destroy_from
destroy_from-Emptied zero r prev cs l h = absurd (omega arith)
destroy_from-Emptied (suc fuel) r prev [] l h = (
  r,
  refl,
  record {
    closed = sym (append-nil r.closed);
    freed = sym (append-nil r.freed);
    head = refl;
    gone = λ a i. cc;
    same = λ a o. refl;
  },
)
destroy_from-Emptied (suc fuel) r prev ((p, c) ∷ cs) (nz, at, out, rest) h =
    let freed : List Msg = elim c.pending_msg [ none ↦ r.freed | some m ↦ r.freed ++ m ∷ [] ] in
    let shut = record r { closed = r.closed ++ c.fd ∷ [] } in
    let r1 = record shut { entries = write r.entries p none; freed = freed } in
    let kept : Linked r1.entries p cs =
      Linked-frame r.entries r1.entries p cs rest
        (λ a i. write_miss r.entries p none a (ne_of_has a p cs i out)) in
    let (r', ran, v) = destroy_from-Emptied fuel r1 p cs kept (omega arith) in
    (
      r',
      rw (beq_zero p nz) (
          rw (at, destroy_from)
            (rw (conn_free_resources_lem shut p (entry prev (first cs) c) at) ran)),
      record {
        closed = v.closed ∙ append_assoc r.closed (c.fd ∷ []) (fds cs);
        freed =
            v.freed
            ∙ ap (λ f. f ++ all_pending cs) (append_option c.pending_msg (λ m. m) r.freed)
            ∙ append_assoc r.freed (pending c) (all_pending cs);
        head = v.head;
        gone = λ a i. elim (Bool-cases (has a cs)) [
          | inl inside ↦ v.gone a inside
          | inr outside ↦
              let e : a ≡ p = ground arith in
              v.same a outside ∙ ap r1.entries e ∙ write_hit r.entries p none
        ];
        same = λ a o. v.same a (ground arith) ∙ write_miss r.entries p none a (λ e. ground arith);
      },
    )

-- `registryDestroyAll` on a well-formed registry, its loop given more rounds than there are
-- connections: it ends without a fault, every descriptor is closed once, newest first, each message
-- that a connection still holds is freed once, and no connection is left, on the heap or in the
-- registry.
pub registry_destroy_all_lem :
    (fuel : ℕ) (r : Registry) (cs : Cells)
    → Registers r cs
    → length cs < fuel
    → (r' : Registry) × (registry_destroy_all fuel r ≡ some r')
      × ((a : Ptr) → r'.entries a ≡ none)
      × ((r'.head ≡ 0) × (r'.closed ≡ r.closed ++ fds cs) × (r'.freed ≡ r.freed ++ all_pending cs))
unfolding registry_destroy_all
registry_destroy_all_lem fuel r cs v h =
    let (r', ran, e) = destroy_from-Emptied fuel (record r { head = 0 }) 0 cs v.linked h in
    (
      r',
      ap (λ p. destroy_from fuel p (record r { head = 0 })) v.head ∙ ran,
      (λ a. elim (Bool-cases (has a cs)) [
        | inl inside ↦ e.gone a inside
        | inr outside ↦ e.same a outside ∙ v.unused a outside
      ]),
      (e.head, e.closed, e.freed),
    )
