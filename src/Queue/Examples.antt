-- ===== src/Queue/Examples.antt =====
-- The queue of src/queue.c on short runs.
use ws_server.Base.{ℕ, ◌≤◌, ◌≡◌, refl, Bool, true, false, none, some, List, [], ◌∷◌, arith}
use ws_server.Base.Store.{Ptr, write}
use ws_server.Queue.Nodes.{
  Nodes, Queue, node, create_queue, queue_enable_notify, notify, link, push, closed, gave, pop,
  trypop, shutdown_queue, delete_queue_with,
}
use ws_server.Queue.Chain.{Spells}
use ws_server.Queue.Contract.{
  Call, push_call, pop_call, trypop_call, shutdown_call, size_call, returned, popped, tried,
  counted, nothing, call, answers, EachUnused,
}
use ws_server.Queue.Trace.{Refines, calls-answers_fresh}
use ws_server.Queue.{enqueue}
use ws_server.Queue.Delete.{delete_queue_with_lem}
use ws_server.Queue.Waiting.{threads, pushes, arrives, Reach, here, next, Reach-Attended_fresh}

abbrev empty : Queue ℕ
empty = record {
  nodes = λ _. none;
  head = 0;
  tail = 0;
  size = 0;
  shutdown = false;
  notify_fd = none;
  writes = 0;
}

-- A node at 64 is used again after its item is taken; the last push finds no memory.
abbrev session : List (Call ℕ)
session =
    push_call 64 7
    ∷ trypop_call
    ∷ push_call 64 8
    ∷ push_call 96 9
    ∷ size_call
    ∷ pop_call
    ∷ shutdown_call
    ∷ push_call 0 5
    ∷ pop_call
    ∷ pop_call
    ∷ []

session_answers :
    (answers true session (record { entries = []; shut = false; notified = 0 })).0
    ≡ returned true
      ∷ tried (some 7)
      ∷ returned true
      ∷ returned true
      ∷ counted 2
      ∷ popped (gave 8)
      ∷ nothing
      ∷ returned false
      ∷ popped (gave 9)
      ∷ popped closed
      ∷ []
unfolding answers enqueue
session_answers = refl

session-EachUnused : EachUnused session (queue_enable_notify (some 5) empty).0
unfolding EachUnused queue_enable_notify call push pop trypop shutdown_queue
session-EachUnused = (
  (λ _. refl),
  (tt, ((λ _. refl), ((λ _. refl), (tt, (tt, (tt, ((λ h. absurd (h refl)), (tt, (tt, tt))))))))),
)

created : create_queue true true true ≡ some empty
unfolding create_queue
created = refl

calls-answers_fresh_example :
    Refines session
      (queue_enable_notify (some 5) empty).0
      (answers true session (record { entries = []; shut = false; notified = 0 }))
calls-answers_fresh_example =
    calls-answers_fresh session true true true (some 5) empty created session-EachUnused

abbrev two : Queue ℕ
two = record {
  nodes = write (write (λ _. none) 96 (some (node 0 9))) 64 (some (node 96 8));
  head = 64;
  tail = 96;
  size = 2;
  shutdown = false;
  notify_fd = none;
  writes = 0;
}

two-Spells : Spells two ((64, 8) ∷ (96, 9) ∷ [])
unfolding write
two-Spells = record {
  chain = ((λ h. absurd (omega arith)), refl, refl, ((λ h. absurd (omega arith)), refl, refl, tt));
  head = refl;
  tail = refl;
  size = refl;
  unused = λ a e. ground arith;
}

delete_queue_with_lem_example :
    (left : Nodes ℕ) × (delete_queue_with two ≡ some (8 ∷ 9 ∷ [], left))
    × ((a : Ptr) → left a ≡ none)
delete_queue_with_lem_example = delete_queue_with_lem two ((64, 8) ∷ (96, 9) ∷ []) two-Spells

-- Two threads sleep, one item comes and wakes one of them.
abbrev one : Queue ℕ
one = record {
  nodes = write (λ _. none) 64 (some (node 0 8));
  head = 64;
  tail = 64;
  size = 1;
  shutdown = false;
  notify_fd = none;
  writes = 0;
}

woken : Reach (threads empty 0 0) (threads one 1 1)
unfolding pop push link notify
woken =
    next (next (next here (arrives refl refl)) (arrives refl refl))
      (pushes 1 64 8 refl (omega arith) (λ _. omega arith))

Reach-Attended_fresh_example : (1 ≤ 1) × (◌≡◌ {A = Bool} false false)
Reach-Attended_fresh_example = Reach-Attended_fresh empty (threads one 1 1) woken (omega arith)
