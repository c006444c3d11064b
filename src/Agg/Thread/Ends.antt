-- ===== src/Agg/Thread/Ends.antt =====
-- In what state `aggregatorThread` of src/agg.c leaves its loop.
use ws_server.Base.{
  ℕ, ◌≡◌, ◌≢◌, ◌⊎◌, refl, Bool, true, false, ◌&&◌, not, none, List, [], ◌∷◌, ◌==◌, length,
  Bool-cases, Option-cases, inl, inr, arith,
}
use mathlib.Core.Path.{subst}
use ws_server.Conn.{Conn}
use ws_server.Agg.Message.{Msg}
use ws_server.Agg.Sink.{Out, close_sink}
use ws_server.Agg.Control.{
  Serving, control_message, control_messages, drain_message, drain_messages, agg_drain_for_shutdown,
}
use ws_server.Agg.Thread.{
  Loop, Event, data_pushed, ctrl_pushed, conn_parked, queues_shut, timer, wait_failed, sink_ready,
  free_parked, Turn, stays, finished, stuck, serve, finish, drain, has_sink, after_serve,
  handle_event, handle_events, aggregator_thread,
}

-- What the thread leaves, in any case.
pub record IsOver (l : Loop) : Type 0 where
  pub no_sink : l.serving.agg.sink ≡ none
  pub nobody_parked : l.parked ≡ []

-- Nothing waits in the queues, and nothing can be added to the data queue.
pub record IsDrained (l : Loop) : Type 0 where
  pub no_message : l.data_queue ≡ []
  pub no_control : l.ctrl_queue ≡ []
  pub shut : l.data_shut ≡ true

-- One of the waits fails.
pub Fails : List Event → Type 0
Fails [] = ⊥
Fails (e ∷ es) = (e ≡ wait_failed) ⊎ Fails es

pub SomeFails : List (List Event) → Type 0
SomeFails [] = ⊥
SomeFails (es ∷ rest) = Fails es ⊎ SomeFails rest

nil_of_length : (ms : List Msg) → (length ms == 0) ≡ true → ms ≡ []
nil_of_length [] e = refl
nil_of_length (m ∷ ms) e = absurd (ground arith)

both_empty :
    (d c : Bool) (data_queue ctrl_queue : List Msg)
    → ((d && (length data_queue == 0)) && (c && (length ctrl_queue == 0))) ≡ true
    → (d ≡ true) × (data_queue ≡ []) × (ctrl_queue ≡ [])
both_empty true true data_queue ctrl_queue e =
    (refl, nil_of_length data_queue (ground arith), nil_of_length ctrl_queue (ground arith))
both_empty true false data_queue ctrl_queue e = absurd (ground arith)
both_empty false c data_queue ctrl_queue e = absurd (ground arith)

stuck-ne : {l : Loop} → stuck ≢ finished l
stuck-ne e = cc

free_parked-nil : (cs : List Conn) (freed : List Msg) → (free_parked cs freed).0 ≡ []
unfolding free_parked
free_parked-nil [] freed = refl
free_parked-nil (c ∷ cs) freed = free_parked-nil cs _

module _ (malloc realloc : ℕ → Bool) (conn_of : ℕ → Conn) (socket_of : Conn → Out) where
  finish-IsOver : (l : Loop) → IsOver (finish malloc realloc conn_of socket_of l)
  unfolding finish close_sink
  finish-IsOver l = record {
    no_sink = elim (Option-cases l.serving.agg.sink) [
      | inl none' ↦ rw (none', finish) none'
      | inr (sink, is) ↦ ground arith
    ];
    nobody_parked = free_parked-nil l.parked l.freed;
  }

  finish-IsDrained :
      (l : Loop)
      → l.data_queue ≡ []
      → l.ctrl_queue ≡ []
      → l.data_shut ≡ true
      → IsDrained (finish malloc realloc conn_of socket_of l)
  unfolding finish
  finish-IsDrained l q c d = record { no_message = q; no_control = c; shut = d }

  control_messages-nil :
      (s : Serving) (ms : List Msg)
      → (control_messages malloc realloc conn_of socket_of s ms).1 ≡ []
  unfolding control_messages
  control_messages-nil s [] = refl
  control_messages-nil s (m ∷ ms) =
      control_messages-nil (control_message malloc realloc conn_of socket_of s m) ms

  drain_messages-nil :
      (s : Serving) (ms : List Msg) → (drain_messages malloc realloc conn_of socket_of s ms).1 ≡ []
  unfolding drain_messages
  drain_messages-nil s [] = refl
  drain_messages-nil s (m ∷ ms) =
      drain_messages-nil (drain_message malloc realloc conn_of socket_of s m) ms

  drain-IsDrained :
      (l : Loop)
      → l.data_shut ≡ true
      → IsDrained
          (finish malloc realloc conn_of socket_of (drain malloc realloc conn_of socket_of l))
  unfolding drain agg_drain_for_shutdown
  drain-IsDrained l d =
      finish-IsDrained (drain malloc realloc conn_of socket_of l)
        (drain_messages-nil
          (control_messages malloc realloc conn_of socket_of l.serving l.ctrl_queue).0 l.data_queue)
        (control_messages-nil l.serving l.ctrl_queue) d

  after_serve-IsOver :
      (l l' : Loop)
      → after_serve malloc realloc conn_of socket_of l ≡ finished l'
      → IsOver l' × IsDrained l'
  unfolding after_serve
  after_serve-IsOver l l' e =
      let shut =
        (l.data_shut && (length l.data_queue == 0))
        && (l.ctrl_shut && (length l.ctrl_queue == 0)) in
      let over = λ (x : Loop). IsOver x × IsDrained x in
      elim (Bool-cases shut) [
        | inl empty ↦
            let is : finish malloc realloc conn_of socket_of l ≡ l' = ground arith in
            let (d, n, c) = both_empty l.data_shut l.ctrl_shut l.data_queue l.ctrl_queue empty in
            subst over is (finish-IsOver l, finish-IsDrained l n c d)
        | inr other ↦
            elim (Bool-cases
              (l.data_shut && not (has_sink malloc realloc conn_of socket_of l.serving.agg))) [
                | inl alone ↦
                    let x = drain malloc realloc conn_of socket_of l in
                    let is : finish malloc realloc conn_of socket_of x ≡ l' = ground arith in
                    subst over is (finish-IsOver x, drain-IsDrained l (ground arith))
                | inr on ↦ absurd (ground arith)
              ]
      ]

  handle_event-IsOver :
      (fuel : ℕ) (l l' : Loop) (e : Event)
      → handle_event malloc realloc conn_of socket_of fuel l e ≡ finished l'
      → IsOver l' × (e ≡ wait_failed)
  unfolding handle_event
  handle_event-IsOver fuel l l' wait_failed e =
      let is : finish malloc realloc conn_of socket_of l ≡ l' = cc in
      (subst IsOver is (finish-IsOver l), refl)
  handle_event-IsOver fuel l l' (data_pushed m) e = absurd (ground arith)
  handle_event-IsOver fuel l l' (ctrl_pushed m) e = absurd (ground arith)
  handle_event-IsOver fuel l l' (conn_parked c) e = absurd (ground arith)
  handle_event-IsOver fuel l l' queues_shut e = absurd (ground arith)
  handle_event-IsOver fuel l l' (timer now) e = absurd (ground arith)
  handle_event-IsOver fuel l l' (sink_ready id hup readable recvs) e = absurd (ground arith)

  handle_events-Fails :
      (fuel : ℕ) (l l' : Loop) (es : List Event)
      → handle_events malloc realloc conn_of socket_of fuel l es ≡ finished l'
      → IsOver l' × Fails es
  unfolding handle_events Fails
  handle_events-Fails fuel l l' [] e = absurd cc
  handle_events-Fails fuel l l' (e ∷ es) q =
      by_turn (handle_event malloc realloc conn_of socket_of fuel l e)
        (handle_event-IsOver fuel l l' e) (λ next. handle_events-Fails fuel next l' es) q
    where
      by_turn :
          (t : Turn)
          → (t ≡ finished l' → IsOver l' × (e ≡ wait_failed))
          → ((next : Loop)
              → handle_events malloc realloc conn_of socket_of fuel next es ≡ finished l'
              → IsOver l' × Fails es)
          → (elim t as (λ _. Turn) [
            | stays next ↦ handle_events malloc realloc conn_of socket_of fuel next es
            | finished x ↦ finished x
            | stuck ↦ stuck
          ])
            ≡ finished l'
          → IsOver l' × ((e ≡ wait_failed) ⊎ Fails es)
      by_turn (stays next) now later p = let (over, f) = later next p in (over, inr f)
      by_turn (finished x) now later p = let (over, f) = now p in (over, inl f)
      by_turn stuck now later p = absurd (stuck-ne p)

  -- Where `aggregatorThread` leaves its loop, after whatever events and however little memory there
  -- is, no connection is left in the park list, and there is no sink; and an `epoll_wait` failed, or
  -- the data queue was shut down, and it and the control queue are empty.
  pub aggregator_thread-IsOver :
      (fuel : ℕ) (l l' : Loop) (waits : List (List Event))
      → aggregator_thread malloc realloc conn_of socket_of fuel l waits ≡ finished l'
      → IsOver l' × (SomeFails waits ⊎ IsDrained l')
  unfolding aggregator_thread SomeFails
  aggregator_thread-IsOver fuel l l' [] e =
      let (over, drained) = after_serve-IsOver (serve malloc realloc conn_of socket_of l).1 l' e in
      (over, inr drained)
  aggregator_thread-IsOver fuel l l' (es ∷ rest) e =
      by_turn
        (after_serve malloc realloc conn_of socket_of (serve malloc realloc conn_of socket_of l).1)
        (after_serve-IsOver (serve malloc realloc conn_of socket_of l).1 l')
        (λ next.
          by_events (handle_events malloc realloc conn_of socket_of fuel next es)
            (handle_events-Fails fuel next l' es)
            (λ later. aggregator_thread-IsOver fuel later l' rest))
        e
    where
      after_events : Turn → Turn
      after_events t = elim t [
        | stays later ↦ aggregator_thread malloc realloc conn_of socket_of fuel later rest
        | finished x ↦ finished x
        | stuck ↦ stuck
      ]

      by_events :
          (t : Turn)
          → (t ≡ finished l' → IsOver l' × Fails es)
          → ((later : Loop)
              → aggregator_thread malloc realloc conn_of socket_of fuel later rest ≡ finished l'
              → IsOver l' × (SomeFails rest ⊎ IsDrained l'))
          → after_events t ≡ finished l'
          → IsOver l' × ((Fails es ⊎ SomeFails rest) ⊎ IsDrained l')
      by_events (stays later) now over q =
          let (o, c) = over later q in (o, elim c [ inl f ↦ inl (inr f) | inr d ↦ inr d ])
      by_events (finished x) now over q = let (o, f) = now q in (o, inl (inl f))
      by_events stuck now over q = absurd (stuck-ne q)

      by_turn :
          (t : Turn)
          → (t ≡ finished l' → IsOver l' × IsDrained l')
          → ((next : Loop)
              → after_events (handle_events malloc realloc conn_of socket_of fuel next es)
                ≡ finished l'
              → IsOver l' × ((Fails es ⊎ SomeFails rest) ⊎ IsDrained l'))
          → (elim t as (λ _. Turn) [
            | finished x ↦ finished x
            | stuck ↦ stuck
            | stays next ↦
                after_events (handle_events malloc realloc conn_of socket_of fuel next es)
          ])
            ≡ finished l'
          → IsOver l' × ((Fails es ⊎ SomeFails rest) ⊎ IsDrained l')
      by_turn (stays next) over later q = later next q
      by_turn (finished x) over later q = let (o, d) = over q in (o, inr d)
      by_turn stuck over later q = absurd (stuck-ne q)
