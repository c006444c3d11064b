-- ===== src/Queue/Contract.antt =====
-- What the callers of src/queue.c may rely on: each call, and what a list of the items answers to it.
use ws_server.Base.{
  ℕ, ◌+◌, ◌≡◌, ◌≢◌, Bool, true, not, Option, none, some, List, [], ◌∷◌, ◌==◌, if◌then◌else◌, length,
}
use ws_server.Base.Store.{Ptr, items}
use ws_server.Queue.{enqueue}
use ws_server.Queue.Nodes.{
  Queue, push, Popped, waits, closed, gave, trypop, pop, shutdown_queue, queue_is_shutdown,
  queue_size,
}

module _ (A : Type 0) where
  -- A call, `push` with the address that `malloc` returns in it.
  pub data Call : Type 0 where
    push_call : Ptr → A → Call
    pop_call trypop_call shutdown_call is_shutdown_call size_call : Call

  -- What a call tells its caller.
  pub data Answer : Type 0 where
    returned : Bool → Answer
    tried : Option A → Answer
    popped : Popped A → Answer
    counted : ℕ → Answer
    nothing : Answer

  -- What a queue is to its callers.
  pub record Fifo : Type 0 where
    pub entries : List A
    pub shut : Bool
    pub notified : ℕ

module _ {A : Type 0} where
  unfoldable pub call : Call A → Queue A → Option (Answer A × Queue A)
  call (push_call p x) q = elim (push p x q) [
    | none ↦ none
    | some (done, q') ↦ some (returned done, q')
  ]
  call pop_call q = elim (pop q) [ none ↦ none | some (r, q') ↦ some (popped r, q') ]
  call trypop_call q = elim (trypop q) [ none ↦ none | some (r, q') ↦ some (tried r, q') ]
  call shutdown_call q = some (nothing, shutdown_queue q)
  call is_shutdown_call q = some (returned (queue_is_shutdown q), q)
  call size_call q = some (counted (queue_size q), q)

  -- The calls one after another, with the answers; `none` is a fault.
  unfoldable pub calls : List (Call A) → Queue A → Option (List (Answer A) × Queue A)
  unfolding call
  calls [] q = some ([], q)
  calls (c ∷ cs) q = elim (call c q) [
    | none ↦ none
    | some (a, q') ↦ elim (calls cs q') [ none ↦ none | some (later, z) ↦ some (a ∷ later, z) ]
  ]

  abbrev take_first : Fifo A → (A → Answer A) → (Answer A) → Answer A × Fifo A
  take_first f gives empty = elim f.entries [
    | [] ↦ (empty, f)
    | x ∷ xs ↦ (gives x, record f { entries = xs })
  ]

  -- The contract: an item is given once, in the order of the pushes. `notifies` says whether the
  -- queue has a descriptor.
  unfoldable pub answer : (notifies : Bool) → Call A → Fifo A → Answer A × Fifo A
  answer notifies (push_call p x) f = (
    returned (not (p == 0)),
    if not (p == 0)
        then record f {
          entries = enqueue (λ _. true) f.entries x;
          notified = if notifies then f.notified + 1 else f.notified;
        }
        else f,
  )
  answer notifies pop_call f =
      take_first f (λ x. popped (gave x)) (popped (if f.shut then closed else waits))
  answer notifies trypop_call f = take_first f (λ x. tried (some x)) (tried none)
  answer notifies shutdown_call f = (
    nothing,
    record f { shut = true; notified = if notifies then f.notified + 1 else f.notified },
  )
  answer notifies is_shutdown_call f = (returned f.shut, f)
  answer notifies size_call f = (counted (length f.entries), f)

  unfoldable pub answers : Bool → List (Call A) → Fifo A → List (Answer A) × Fifo A
  unfolding answer
  answers notifies [] f = ([], f)
  answers notifies (c ∷ cs) f =
      let (a, f') = answer notifies c f in let (later, z) = answers notifies cs f' in (a ∷ later, z)

  -- What the callers see of a queue that spells these nodes.
  abbrev pub seen : Queue A → List (Ptr × A) → Fifo A
  seen q cs = record { entries = items cs; shut = q.shutdown; notified = q.writes }

  -- What `malloc` promises of the address that it returns.
  abbrev pub Unused : Call A → Queue A → Type 0
  Unused (push_call p x) q = p ≢ 0 → q.nodes p ≡ none
  Unused c q = Unit {0}

  -- It promises so at each call of the run.
  unfoldable pub EachUnused : List (Call A) → Queue A → Type 0
  unfolding call
  EachUnused [] q = Unit {0}
  EachUnused (c ∷ cs) q =
      Unused c q × elim (call c q) [ none ↦ Unit {0} | some (a, q') ↦ EachUnused cs q' ]
