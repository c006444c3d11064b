-- ===== src/Queue/Trace.antt =====
-- The queue of src/queue.c behind its contract: calls in any order, against a list of the items.
use ws_server.Base.{
  ℕ, ◌+◌, ◌≡◌, ◌≢◌, refl, ap, ◌∙◌, sym, Bool, true, false, Option, none, some, List, [], ◌∷◌, ◌++◌,
  arith, ◌==◌, if◌then◌else◌, Bool-cases, inl, inr,
}
use ws_server.Base.Store.{Ptr, first, items-append, length-items}
use ws_server.Queue.{enqueue}
use ws_server.Queue.Nodes.{
  Queue, create_queue, notify, queue_enable_notify, push, waits, closed, gave, trypop, pop,
  shutdown_queue, queue_is_shutdown, queue_size,
}
use mathlib.Core.Path.{subst}
use ws_server.Queue.Chain.{Spells}
use ws_server.Queue.Fifo.{notify-Spells, notify_lem, is_set, push_cases, taken, pop_head_lem}
use ws_server.Queue.Contract.{
  Call, push_call, pop_call, trypop_call, shutdown_call, is_shutdown_call, size_call, Answer,
  returned, tried, popped, counted, nothing, Fifo, call, calls, answer, answers, seen, Unused,
  EachUnused,
}

module _ {A : Type 0} where
  Fifo-path :
      (f g : Fifo A) → f.entries ≡ g.entries → f.shut ≡ g.shut → f.notified ≡ g.notified → f ≡ g
  Fifo-path f g e s n = λ i. record { entries = e i; shut = s i; notified = n i }

  -- The queue after a call answers as the contract says, and still spells its items.
  record Answers (c : Call A) (q : Queue A) (cs : List (Ptr × A)) : Type 0 where
    said : Answer A
    after : Queue A
    left : List (Ptr × A)
    runs : call c q ≡ some (said, after)
    agrees : answer (is_set q.notify_fd) c (seen q cs) ≡ (said, seen after left)
    spells : Spells after left
    same_fd : after.notify_fd ≡ q.notify_fd

  push-Answers :
      (p : Ptr) (x : A) (q : Queue A) (cs : List (Ptr × A))
      → p ≢ 0
      → q.nodes p ≡ none
      → Spells q cs
      → Answers (push_call p x) q cs
  unfolding call answer enqueue
  push-Answers p x q cs nz free v =
      let (q', ran, spelt, (s, d, w)) = push_cases q p x cs v nz free in
      let (n, m, o) = notify_lem q' in
      let memory : (p == 0) ≡ false = ground arith in
      record {
        said = returned true;
        after = notify q';
        left = cs ++ (p, x) ∷ [];
        runs = rw (ran, call) refl;
        agrees = rw memory (
            ap (λ f. (returned true, f))
              (Fifo-path _ _ (sym (items-append cs _)) (sym (n ∙ s)) (
                sym (
                  o
                  ∙ ap (λ fd. if is_set fd then q'.writes + 1 else q'.writes) d
                  ∙ ap (λ k. if is_set q.notify_fd then k + 1 else k) w))));
        spells = notify-Spells q' spelt;
        same_fd = m ∙ d;
      }

  -- A call that leaves the queue as it is.
  untouched :
      (c : Call A) (q : Queue A) (cs : List (Ptr × A)) (said : Answer A)
      → call c q ≡ some (said, q)
      → answer (is_set q.notify_fd) c (seen q cs) ≡ (said, seen q cs)
      → Spells q cs
      → Answers c q cs
  untouched c q cs said runs agrees v = record {
    said = said;
    after = q;
    left = cs;
    runs = runs;
    agrees = agrees;
    spells = v;
    same_fd = refl;
  }

  -- A call that takes the first item.
  takes_first :
      (c : Call A) (q : Queue A) (p : Ptr) (x : A) (cs : List (Ptr × A)) (said : Answer A)
      → call c q ≡ some (said, taken q (first cs))
      → answer (is_set q.notify_fd) c (seen q ((p, x) ∷ cs)) ≡ (said, seen (taken q (first cs)) cs)
      → Spells (taken q (first cs)) cs
      → Answers c q ((p, x) ∷ cs)
  takes_first c q p x cs said runs agrees v = record {
    said = said;
    after = taken q (first cs);
    left = cs;
    runs = runs;
    agrees = agrees;
    spells = v;
    same_fd = refl;
  }

  shutdown-Answers : (q : Queue A) (cs : List (Ptr × A)) → Spells q cs → Answers shutdown_call q cs
  unfolding call answer shutdown_queue
  shutdown-Answers q cs v =
      let shut = record q { shutdown = true } in
      let spelt : Spells shut cs = record {
        chain = v.chain;
        head = v.head;
        tail = v.tail;
        size = v.size;
        unused = v.unused;
      } in
      let (n, m, o) = notify_lem shut in
      record {
        said = nothing;
        after = shutdown_queue q;
        left = cs;
        runs = refl;
        agrees = ap (λ f. (nothing, f)) (Fifo-path _ _ refl (sym n) (sym o));
        spells = notify-Spells shut spelt;
        same_fd = m;
      }

  call-Answers :
      (c : Call A) (q : Queue A) (cs : List (Ptr × A)) → Unused c q → Spells q cs → Answers c q cs
  unfolding call answer queue_is_shutdown queue_size pop trypop push
  call-Answers (push_call p x) q cs free v = elim (Bool-cases (p == 0)) [
    | inl failed ↦
        untouched (push_call p x) q cs (returned false)
          (ap (λ r. call (push_call r x) q) (let e : p ≡ 0 = ground arith in e)) (rw failed refl) v
    | inr memory ↦ let nz : p ≢ 0 = ground arith in push-Answers p x q cs nz (free nz) v
  ]
  call-Answers pop_call q [] free v =
      untouched pop_call q [] (popped (if q.shutdown then closed else waits))
        (ground (arith, v.size)) refl v
  call-Answers pop_call q ((p, x) ∷ cs) free v =
      let (ran, spelt) = pop_head_lem q p x cs v in
      takes_first pop_call q p x cs (popped (gave x)) (ground (arith, v.size, ran)) refl spelt
  call-Answers trypop_call q [] free v =
      untouched trypop_call q [] (tried none) (ground (arith, v.size)) refl v
  call-Answers trypop_call q ((p, x) ∷ cs) free v =
      let (ran, spelt) = pop_head_lem q p x cs v in
      takes_first trypop_call q p x cs (tried (some x)) (ground (arith, v.size, ran)) refl spelt
  call-Answers shutdown_call q cs free v = shutdown-Answers q cs v
  call-Answers is_shutdown_call q cs free v =
      untouched is_shutdown_call q cs (returned q.shutdown) refl refl v
  call-Answers size_call q cs free v =
      untouched size_call q cs (counted q.size) refl
        (ap (λ k. (counted k, seen q cs)) (length-items cs ∙ sym v.size)) v

  -- The run gives these answers and ends in a queue that is still well-formed.
  abbrev pub Refines : List (Call A) → Queue A → List (Answer A) × Fifo A → Type 0
  Refines cs q (said, f) =
      (z : Queue A) × (cells : List (Ptr × A)) × (calls cs q ≡ some (said, z))
      × Spells z cells
      × (seen z cells ≡ f)

  calls-answers :
      (cs : List (Call A)) (q : Queue A) (cells : List (Ptr × A)) (notifies : Bool)
      → EachUnused cs q
      → Spells q cells
      → is_set q.notify_fd ≡ notifies
      → Refines cs q (answers notifies cs (seen q cells))
  unfolding calls answers EachUnused
  calls-answers [] q cells notifies free v e = (q, cells, refl, v, refl)
  calls-answers (c ∷ cs) q cells notifies free v e =
      let a = call-Answers c q cells free.0 v in
      let later : EachUnused cs a.after =
        subst (λ r. elim r as (λ _. Type 0) [ none ↦ Unit {0} | some (b, q') ↦ EachUnused cs q' ])
          a.runs free.1 in
      let (z, left, ran, spelt, same) =
        calls-answers cs a.after a.left notifies later a.spells (ap is_set a.same_fd ∙ e) in
      let is : answer notifies c (seen q cells) ≡ (a.said, seen a.after a.left) =
        ap (λ n. answer n c (seen q cells)) (sym e) ∙ a.agrees in
      rw is (z, left, rw (a.runs, calls) (rw ran refl), spelt, same)

  abbrev fresh : Queue A
  fresh = record {
    nodes = λ _. none;
    head = 0;
    tail = 0;
    size = 0;
    shutdown = false;
    notify_fd = none;
    writes = 0;
  }

  created_fresh :
      (memory mutex cond : Bool) (q : Queue A) → create_queue memory mutex cond ≡ some q → fresh ≡ q
  unfolding create_queue
  created_fresh memory mutex cond q made = ground arith

  enabled_lem :
      (fd : Option ℕ)
      → Spells (queue_enable_notify fd fresh).0 []
        × (is_set (queue_enable_notify fd fresh).0.notify_fd ≡ is_set fd)
        × (seen (queue_enable_notify fd fresh).0 []
            ≡ record { entries = []; shut = false; notified = 0 })
  unfolding queue_enable_notify
  enabled_lem none = (
    record { chain = tt; head = refl; tail = refl; size = refl; unused = λ a e. refl },
    refl,
    refl,
  )
  enabled_lem (some fd) = (
    record { chain = tt; head = refl; tail = refl; size = refl; unused = λ a e. refl },
    refl,
    refl,
  )

  create_lem :
      (memory mutex cond : Bool) (fd : Option ℕ) (q : Queue A)
      → create_queue memory mutex cond ≡ some q
      → Spells (queue_enable_notify fd q).0 []
        × (is_set (queue_enable_notify fd q).0.notify_fd ≡ is_set fd)
        × (seen (queue_enable_notify fd q).0 []
            ≡ record { entries = []; shut = false; notified = 0 })
  create_lem memory mutex cond fd q made =
      subst
        (λ (q : Queue A).
          Spells (queue_enable_notify fd q).0 []
          × (is_set (queue_enable_notify fd q).0.notify_fd ≡ is_set fd)
          × (seen (queue_enable_notify fd q).0 []
              ≡ record { entries = []; shut = false; notified = 0 }))
        (created_fresh memory mutex cond q made) (enabled_lem fd)

  -- A queue that `createQueue` makes, with a descriptor for notices or without one, and any
  -- sequence of calls of `push`, `pop`, `trypop`, `shutdownQueue`, `queueIsShutdown` and
  -- `queueSize`, where each address that `malloc` returns to `push` is unused at the time or
  -- NULL: no call faults, each says what the list of the items says, and the queue that is left
  -- spells that list. An item that is pushed with memory for its node joins at the end and is given
  -- once, in the order of the pushes; a push without memory says so and changes nothing; `pop`
  -- waits on an empty queue until it is shut down, and says closed once it is empty and shut down;
  -- each push with memory and each shutdown writes once to the descriptor, where there is one.
  pub calls-answers_fresh :
      (cs : List (Call A)) (memory mutex cond : Bool) (fd : Option ℕ) (q : Queue A)
      → create_queue memory mutex cond ≡ some q
      → EachUnused cs (queue_enable_notify fd q).0
      → Refines cs
          (queue_enable_notify fd q).0
          (answers (is_set fd) cs (record { entries = []; shut = false; notified = 0 }))
  calls-answers_fresh cs memory mutex cond fd q made free =
      let (v, has_fd, same) = create_lem memory mutex cond fd q made in
      subst (λ f. Refines cs (queue_enable_notify fd q).0 (answers (is_set fd) cs f)) same
        (calls-answers cs (queue_enable_notify fd q).0 [] (is_set fd) free v has_fd)
