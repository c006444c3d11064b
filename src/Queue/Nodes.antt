-- ===== src/Queue/Nodes.antt =====
-- `Queue_t` of inc/queue.h and the functions of src/queue.c: a chain of nodes on the heap, with
-- pointers to both ends. The queue's mutex makes each function one step; `Waiting.antt` has the
-- condition variable.
use ws_server.Base.{
  ℕ, zero, suc, ◌+◌, ◌-◌, Bool, true, false, ◌&&◌, not, Option, none, some, List, [], ◌∷◌,
  if◌then◌else◌, ◌==◌,
}
use ws_server.Base.Store.{Ptr, Store, write}

module _ (A : Type 0) where
  -- `QNode_t`.
  pub record Node : Type 0 where
    pub next : Ptr
    pub item : A

  abbrev pub Nodes : Type 0
  Nodes = Store Node

  -- `notify_fd` is `none` for -1, and `writes` counts the calls of `write` to it. `nodes` is the
  -- heap, as far as nodes of this queue go.
  pub record Queue : Type 0 where
    pub nodes : Nodes
    pub head : Ptr
    pub tail : Ptr
    pub size : ℕ
    pub shutdown : Bool
    pub notify_fd : Option ℕ
    pub writes : ℕ

  -- What `pop` finds under the mutex: it goes on waiting, returns -1, or has an item.
  pub data Popped : Type 0 where
    waits closed : Popped
    gave : A → Popped

module _ {A : Type 0} where
  abbrev pub node : Ptr → A → Node A
  node next item = record { next = next; item = item }

  -- `createQueue`, with what `malloc` and the two `init` functions of pthread say.
  unfoldable pub create_queue : (memory mutex cond : Bool) → Option (Queue A)
  create_queue memory mutex cond =
      if memory && mutex && cond
      then some (record {
        nodes = λ _. none;
        head = 0;
        tail = 0;
        size = 0;
        shutdown = false;
        notify_fd = none;
        writes = 0;
      })
      else none

  -- `queueEnableNotify`, with what `eventfd` returns.
  unfoldable pub queue_enable_notify : Option ℕ → Queue A → Queue A × Option ℕ
  queue_enable_notify none q = (q, none)
  queue_enable_notify (some fd) q = (record q { notify_fd = some fd }, some fd)

  -- The write of one to the descriptor, where there is one.
  unfoldable pub notify : Queue A → Queue A
  notify q = elim q.notify_fd [ none ↦ q | some fd ↦ record q { writes = q.writes + 1 } ]

  -- `p->next = n`; `none` is a fault.
  unfoldable pub set_next : Nodes A → Ptr → Ptr → Option (Nodes A)
  set_next nodes p n = elim (nodes p) [
    | none ↦ none
    | some c ↦ some (write nodes p (some (node n c.item)))
  ]

  -- The node `n` becomes the last one.
  unfoldable pub link : Ptr → Queue A → Option (Queue A)
  unfolding set_next
  link n q =
      if q.tail == 0
      then some (record q { head = n; tail = n; size = q.size + 1 })
      else elim (set_next q.nodes q.tail n) [
        | none ↦ none
        | some nodes ↦ some (record q { nodes = nodes; tail = n; size = q.size + 1 })
      ]

  -- `push`, with the address that `malloc` returns: whether it returns 0, and the queue after it.
  -- The outer `none` is a fault.
  unfoldable pub push : Ptr → A → Queue A → Option (Bool × Queue A)
  unfolding write link notify
  push fresh item q =
      if fresh == 0
      then some (false, q)
      else elim (link fresh (record q { nodes = write q.nodes fresh (some (node 0 item)) })) [
        | none ↦ none
        | some q' ↦ some (true, notify q')
      ]

  unfoldable pub shutdown_queue : Queue A → Queue A
  unfolding notify
  shutdown_queue q = notify (record q { shutdown = true })

  unfoldable pub queue_is_shutdown : Queue A → Bool
  queue_is_shutdown q = q.shutdown

  unfoldable pub queue_size : Queue A → ℕ
  queue_size q = q.size

  -- The first node is taken off and freed.
  unfoldable pub pop_head_locked : Queue A → Option (A × Queue A)
  unfolding write
  pop_head_locked q = if q.head == 0 then none else elim (q.nodes q.head) [
    | none ↦ none
    | some n ↦ some (
      n.item,
      record q {
        nodes = write q.nodes q.head none;
        head = n.next;
        tail = if n.next == 0 then 0 else q.tail;
        size = q.size - 1;
      },
    )
  ]

  -- `trypop`: no item where it returns -1.
  unfoldable pub trypop : Queue A → Option (Option A × Queue A)
  unfolding pop_head_locked
  trypop q =
      if q.size == 0
      then some (none, q)
      else elim (pop_head_locked q) [ none ↦ none | some (item, q') ↦ some (some item, q') ]

  -- `pop`, each time that the thread holds the mutex and looks at the queue.
  unfoldable pub pop : Queue A → Option (Popped A × Queue A)
  unfolding pop_head_locked
  pop q =
      if q.size == 0 && not q.shutdown
      then some (waits, q)
      else if q.size == 0
      then some (closed, q)
      else elim (pop_head_locked q) [ none ↦ none | some (item, q') ↦ some (gave item, q') ]

  -- The loop of `deleteQueueWith`: the items that `freeItem` is called with, and what is left.
  -- `none` is a fault, or the end of the fuel.
  unfoldable pub free_nodes : ℕ → Ptr → Nodes A → Option (List A × Nodes A)
  unfolding write
  free_nodes zero p nodes = none
  free_nodes (suc fuel) p nodes = if p == 0 then some ([], nodes) else elim (nodes p) [
    | none ↦ none
    | some n ↦ elim (free_nodes fuel n.next (write nodes p none)) [
      | none ↦ none
      | some (items, left) ↦ some (n.item ∷ items, left)
    ]
  ]

  -- `deleteQueueWith`; `deleteQueue` calls it with no `freeItem`.
  unfoldable pub delete_queue_with : Queue A → Option (List A × Nodes A)
  unfolding free_nodes
  delete_queue_with q = free_nodes (q.size + 1) q.head q.nodes
