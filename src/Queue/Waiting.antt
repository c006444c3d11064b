-- ===== src/Queue/Waiting.antt =====
-- `pop`, `push` and `shutdownQueue` of src/queue.c with the condition variable: threads that wait
-- in `pthread_cond_wait`, and those that were woken and have not looked at the queue yet.
use ws_server.Base.{ℕ, ◌+◌, ◌-◌, ◌≤◌, ◌<◌, ◌≡◌, true, false, Option, some, arith}
use ws_server.Base.Store.{Ptr}
use ws_server.Queue.Nodes.{
  Queue, notify, link, set_next, push, Popped, waits, closed, gave, pop_head_locked, trypop, pop,
  shutdown_queue,
}

module _ (A : Type 0) where
  pub record Threads : Type 0 where
    pub queue : Queue A
    pub asleep : ℕ
    pub woken : ℕ

module _ {A : Type 0} where
  abbrev pub threads : Queue A → ℕ → ℕ → Threads A
  threads q asleep woken = record { queue = q; asleep = asleep; woken = woken }

  -- How many threads go to sleep with this outcome of `pop`.
  abbrev pub sleeping : Popped A → ℕ
  sleeping waits = 1
  sleeping closed = 0
  sleeping (gave x) = 0

  -- One thread with the mutex. A signal wakes at least one of those that wait, a broadcast all of
  -- them, and one may wake by itself. A thread looks at the queue when it calls `pop` or was woken.
  pub data Step : Threads A → Threads A → Type 0 where
    pushes :
        {q q' : Queue A} {asleep woken : ℕ} (k : ℕ) (p : Ptr) (x : A)
        → push p x q ≡ some (true, q')
        → k ≤ asleep
        → (0 < asleep → 0 < k)
        → Step (threads q asleep woken) (threads q' (asleep - k) (woken + k))
    tries :
        {q q' : Queue A} {asleep woken : ℕ} {r : Option A}
        → trypop q ≡ some (r, q')
        → Step (threads q asleep woken) (threads q' asleep woken)
    shuts :
        {q : Queue A} {asleep woken : ℕ}
        → Step (threads q asleep woken) (threads (shutdown_queue q) 0 (woken + asleep))
    arrives :
        {q q' : Queue A} {asleep woken sleeps : ℕ} {r : Popped A}
        → pop q ≡ some (r, q')
        → sleeps ≡ sleeping r
        → Step (threads q asleep woken) (threads q' (asleep + sleeps) woken)
    looks :
        {q q' : Queue A} {asleep woken sleeps : ℕ} {r : Popped A}
        → 0 < woken
        → pop q ≡ some (r, q')
        → sleeps ≡ sleeping r
        → Step (threads q asleep woken) (threads q' (asleep + sleeps) (woken - 1))
    wakes :
        {q : Queue A} {asleep woken : ℕ}
        → 0 < asleep
        → Step (threads q asleep woken) (threads q (asleep - 1) (woken + 1))

  pub data Reach (s : Threads A) : Threads A → Type 0 where
    here : Reach s s
    next : {t u : Threads A} → Reach s t → Step t u → Reach s u

  -- Where a thread waits, at least as many threads are on their way as there are items, and the
  -- queue is not shut down.
  abbrev pub Attended : Threads A → Type 0
  Attended t = 0 < t.asleep → (t.queue.size ≤ t.woken) × (t.queue.shutdown ≡ false)

  push_size :
      (q q' : Queue A) (p : Ptr) (x : A)
      → push p x q ≡ some (true, q')
      → (q'.size ≡ q.size + 1) × (q'.shutdown ≡ q.shutdown)
  unfolding push link set_next notify
  push_size q q' p x e = ground arith

  trypop_size :
      (q q' : Queue A) (r : Option A)
      → trypop q ≡ some (r, q')
      → (q'.size ≤ q.size) × (q'.shutdown ≡ q.shutdown)
  unfolding trypop pop_head_locked
  trypop_size q q' r e = ground arith

  -- What `pop` does to the number of items, with whether its thread goes to sleep.
  pop_size :
      (q q' : Queue A) (r : Popped A)
      → pop q ≡ some (r, q')
      → (q'.shutdown ≡ q.shutdown)
        × (sleeping r ≡ 0 → q'.size ≡ q.size - 1)
        × (0 < sleeping r → (q.size ≡ 0) × (q'.size ≡ 0) × (q.shutdown ≡ false))
  unfolding pop pop_head_locked
  pop_size q q' waits e = ground arith
  pop_size q q' closed e = ground arith
  pop_size q q' (gave x) e = ground arith

  Step-Attended : {t u : Threads A} → Step t u → Attended t → Attended u
  unfolding shutdown_queue notify
  Step-Attended (pushes {q} {q'} k p x e le wake) h z =
      let (s, d) = push_size q q' p x e in ground arith
  Step-Attended (tries {q} {q'} {r = r} e) h z = let (s, d) = trypop_size q q' r e in ground arith
  Step-Attended shuts h z = absurd (omega arith)
  Step-Attended (arrives {q} {q'} {r = r} e sl) h z =
      let (d, stays, sleeps) = pop_size q q' r e in ground arith
  Step-Attended (looks {q} {q'} {r = r} w e sl) h z =
      let (d, stays, sleeps) = pop_size q q' r e in ground arith
  Step-Attended (wakes w) h z = ground (arith, h w)

  Reach-Attended : {s t : Threads A} → Reach s t → Attended s → Attended t
  Reach-Attended here h = h
  Reach-Attended (next r step) h = Step-Attended step (Reach-Attended r h)

  -- No wakeup is lost. From a queue that no thread uses yet, after any steps of any number of
  -- threads that push, pop, try and shut down, with wakeups out of turn: where a thread still
  -- sleeps in `pop`, the queue is not shut down, and at least as many woken threads are about to
  -- look at the queue as there are items in it.
  pub Reach-Attended_fresh :
      (q : Queue A) (t : Threads A)
      → Reach (threads q 0 0) t
      → 0 < t.asleep
      → (t.queue.size ≤ t.woken) × (t.queue.shutdown ≡ false)
  Reach-Attended_fresh q t r = Reach-Attended r (λ h. absurd (omega arith))
