-- ===== src/Conn/Registry.antt =====
-- The registry of src/conn.c: every connection that is open, in a list linked both ways, so that
-- the end of the program can free those that no thread closed.
use ws_server.Base.{
  ℕ, zero, suc, ◌+◌, ◌%◌, ◌^◌, Option, none, some, List, [], ◌∷◌, ◌++◌, if◌then◌else◌, ◌==◌,
}
use ws_server.Base.Store.{Ptr, Store, write}
use ws_server.Agg.Message.{Msg}
use ws_server.Conn.{Conn, conn_new}

-- A `Conn_t` on the heap: `regPrev`, `regNext` and its other fields.
pub record Entry : Type 0 where
  pub prev : Ptr
  pub next : Ptr
  pub conn : Conn

abbrev pub entry : Ptr → Ptr → Conn → Entry
entry prev next conn = record { prev = prev; next = next; conn = conn }

-- `g_registry`, the heap as far as connections go, and what was done outside of it: the calls of
-- `close`, those of `epoll_ctl` that delete, and those of `msgFree`.
pub record Registry : Type 0 where
  pub entries : Store Entry
  pub head : Ptr
  pub next_id : ℕ
  pub closed : List ℕ
  pub deleted : List (ℕ × ℕ)
  pub freed : List Msg

unfoldable pub registry_init : Registry
registry_init = record {
  entries = λ _. none;
  head = 0;
  next_id = 1;
  closed = [];
  deleted = [];
  freed = [];
}

-- `p->regPrev = v` and `p->regNext = v`; `none` is a fault.
unfoldable pub set_prev : Store Entry → Ptr → Ptr → Option (Store Entry)
set_prev entries p v = elim (entries p) [
  | none ↦ none
  | some e ↦ some (write entries p (some (record e { prev = v })))
]

unfoldable pub set_next : Store Entry → Ptr → Ptr → Option (Store Entry)
set_next entries p v = elim (entries p) [
  | none ↦ none
  | some e ↦ some (write entries p (some (record e { next = v })))
]

-- The entry, which `connNew` filled in, goes to the front.
unfoldable pub registry_add : Ptr → Conn → Registry → Option Registry
unfolding set_prev
registry_add p c r =
    let entries = write r.entries p (some (entry 0 r.head c)) in
    if r.head == 0
    then some (record r { entries = entries; head = p })
    else elim (set_prev entries r.head p) [
      | none ↦ none
      | some entries' ↦ some (record r { entries = entries'; head = p })
    ]

-- What stands in front of an entry, or the head, now points behind it.
unfoldable pub skip_forward : Ptr → Ptr → Registry → Option Registry
unfolding set_next
skip_forward prev next r =
    if prev == 0 then some (record r { head = next }) else elim (set_next r.entries prev next) [
      | none ↦ none
      | some entries ↦ some (record r { entries = entries })
    ]

-- What stands behind it, if anything, now points in front of it.
unfoldable pub skip_back : Ptr → Ptr → Registry → Option Registry
unfolding set_prev
skip_back prev next r = if next == 0 then some r else elim (set_prev r.entries next prev) [
  | none ↦ none
  | some entries ↦ some (record r { entries = entries })
]

unfoldable pub registry_remove : Ptr → Registry → Option Registry
unfolding skip_forward skip_back
registry_remove p r = elim (r.entries p) [
  | none ↦ none
  | some e ↦ elim (skip_forward e.prev e.next r) [
    | none ↦ none
    | some r' ↦ skip_back e.prev e.next r'
  ]
]

-- The three buffers and the connection itself go back to the heap, and so does a message that is
-- still there.
unfoldable pub conn_free_resources : Ptr → Registry → Option Registry
unfolding write
conn_free_resources p r = elim (r.entries p) [
  | none ↦ none
  | some e ↦ some (record r {
    entries = write r.entries p none;
    freed = elim e.conn.pending_msg [ none ↦ r.freed | some m ↦ r.freed ++ m ∷ [] ];
  })
]

-- `connNew`, with the address that `calloc` returns. The inner `none` is NULL, the outer one a
-- fault.
unfoldable pub conn_new_at : Ptr → ℕ → ℕ → Registry → Option (Option Ptr × Registry)
unfolding registry_add
conn_new_at p fd epollfd r =
    if p == 0
    then some (none, r)
    else elim (registry_add p (conn_new fd epollfd r.next_id)
        (record r { next_id = (r.next_id + 1) % 2 ^ 64 })) [
          | none ↦ none
          | some r' ↦ some (some p, r')
        ]

unfoldable pub conn_destroy : Ptr → Registry → Option Registry
unfolding registry_remove conn_free_resources
conn_destroy p r =
    if p == 0
    then some r
    else elim (registry_remove p r) [ none ↦ none | some r' ↦ conn_free_resources p r' ]

unfoldable pub conn_close : Ptr → Registry → Option Registry
unfolding conn_destroy
conn_close p r = if p == 0 then some r else elim (r.entries p) [
  | none ↦ none
  | some e ↦ conn_destroy p (record r {
    deleted = elim e.conn.epollfd [
      | none ↦ r.deleted
      | some ep ↦ r.deleted ++ (ep, e.conn.fd) ∷ []
    ];
    closed = r.closed ++ e.conn.fd ∷ [];
  })
]

-- The loop of `registryDestroyAll` from an entry on; `none` is a fault, or the end of the fuel.
unfoldable pub destroy_from : ℕ → Ptr → Registry → Option Registry
unfolding conn_free_resources
destroy_from zero p r = none
destroy_from (suc fuel) p r = if p == 0 then some r else elim (r.entries p) [
  | none ↦ none
  | some e ↦ elim (conn_free_resources p (record r { closed = r.closed ++ e.conn.fd ∷ [] })) [
    | none ↦ none
    | some r' ↦ destroy_from fuel e.next r'
  ]
]

unfoldable pub registry_destroy_all : ℕ → Registry → Option Registry
unfolding destroy_from
registry_destroy_all fuel r = destroy_from fuel r.head (record r { head = 0 })
