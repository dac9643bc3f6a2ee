-- ===== src/Events/Conserve.antt =====
-- crawler/communication/eventbus.go: where the published events are.
use go_backend_kit.Common.{
  ℕ, ◌+◌, String, Bool, ◌≡◌, refl, List, [], ◌∷◌, ◌++◌, ltb, length, arith, if◌then◌else◌, ◌&&◌,
  Time,
}
use go_backend_kit.Events.{
  Event, EventBus, Step, starts, stops, ends, stop, publishes, subscribes, unsubscribes,
  handles_next, persists_next, ticks, redis_sends, step, run, start, publish, stamp, offer,
  subscribe, unsubscribe, local_turn, handle_event, persist_turn, persist_tick, keep_in_batch,
  flush_events,
}

-- Events weighed by their identifiers.
abbrev pub weigh_events : (String → ℕ) → List Event → ℕ
weigh_events f [] = 0
weigh_events f (e ∷ es) = f e.id + weigh_events f es

weigh_events-append :
    (f : String → ℕ) (es fs : List Event)
    → weigh_events f (es ++ fs) ≡ weigh_events f es + weigh_events f fs
weigh_events-append f [] fs = omega arith
weigh_events-append f (e ∷ es) fs = omega (arith, weigh_events-append f es fs)

-- Waiting in the stream, taken by the local goroutine, in the batch, or handed over to be saved.
abbrev pub weigh_bus : (String → ℕ) → EventBus → ℕ
weigh_bus f b =
    weigh_events f b.event_stream
    + weigh_events f b.handled
    + weigh_events f b.batch
    + weigh_events f b.flushed

-- What a step puts into the stream: a running bus with room takes a published event.
abbrev pub weigh_taken : (String → ℕ) → Step → EventBus → ℕ
weigh_taken f starts b = 0
weigh_taken f stops b = 0
weigh_taken f (publishes now e) b =
    if b.running && ltb (length b.event_stream) 1000 then f e.id else 0
weigh_taken f (subscribes kind h) b = 0
weigh_taken f (unsubscribes kind h) b = 0
weigh_taken f handles_next b = 0
weigh_taken f (persists_next executed) b = 0
weigh_taken f (ticks executed) b = 0
weigh_taken f (ends executed) b = 0
weigh_taken f (redis_sends e) b = 0

abbrev pub weigh_all_taken : (String → ℕ) → List Step → EventBus → ℕ
weigh_all_taken f [] b = 0
weigh_all_taken f (s ∷ ss) b = weigh_taken f s b + weigh_all_taken f ss (step s b)

stamp-id : (now : Time) (e : Event) → (stamp now e).id ≡ e.id
unfolding stamp
stamp-id now e = ground arith

publish_conserves :
    (f : String → ℕ) (now : Time) (e : Event) (b : EventBus)
    → weigh_bus f (publish now e b) ≡ weigh_bus f b + weigh_taken f (publishes now e) b
unfolding publish offer
publish_conserves f now e b =
    ground (arith, weigh_events-append f b.event_stream (stamp now e ∷ []), stamp-id now e)

local_conserves :
    (f : String → ℕ) (es : List Event) (b : EventBus)
    → b.event_stream ≡ es
    → weigh_bus f (local_turn es b) ≡ weigh_bus f b
unfolding local_turn handle_event
local_conserves f [] b h = refl
local_conserves f (e ∷ es) b h = rw h (ground (arith, weigh_events-append f b.handled (e ∷ [])))

flush_conserves :
    (f : String → ℕ) (executed : Bool) (b : EventBus)
    → weigh_bus f (flush_events executed b) ≡ weigh_bus f b
unfolding flush_events
flush_conserves f executed b = ground (arith, weigh_events-append f b.flushed b.batch)

persist_conserves :
    (f : String → ℕ) (executed : Bool) (es : List Event) (b : EventBus)
    → b.event_stream ≡ es
    → weigh_bus f (persist_turn executed es b) ≡ weigh_bus f b
unfolding persist_turn keep_in_batch
persist_conserves f executed [] b h = refl
persist_conserves f executed (e ∷ es) b h =
    let kept = record b { event_stream = es; batch = b.batch ++ (e ∷ []) } in
    rw h (ground (arith, weigh_events-append f b.batch (e ∷ []), flush_conserves f executed kept))

step_conserves :
    (f : String → ℕ) (s : Step) (b : EventBus)
    → weigh_bus f (step s b) ≡ weigh_bus f b + weigh_taken f s b
unfolding step start stop subscribe unsubscribe persist_tick handle_event
step_conserves f starts b = ground arith
step_conserves f stops b = ground arith
step_conserves f (publishes now e) b = publish_conserves f now e b
step_conserves f (subscribes kind h) b = ground arith
step_conserves f (unsubscribes kind h) b = ground arith
step_conserves f handles_next b = omega (arith, local_conserves f b.event_stream b refl)
step_conserves f (persists_next executed) b =
    omega (arith, persist_conserves f executed b.event_stream b refl)
step_conserves f (ticks executed) b = ground (arith, flush_conserves f executed b)
step_conserves f (ends executed) b = omega (arith, flush_conserves f executed b)
step_conserves f (redis_sends e) b = ground arith

-- For every sequence of calls of the event bus and steps of its goroutines, under every weight of
-- identifiers, the events that wait in the stream, that the local goroutine has taken, that wait
-- in the batch and that were handed over to be saved are together those of before and those that a
-- running bus with room in the stream was given.
pub event_run_conserves :
    (f : String → ℕ) (ss : List Step) (b : EventBus)
    → weigh_bus f (run ss b) ≡ weigh_bus f b + weigh_all_taken f ss b
unfolding run
event_run_conserves f [] b = omega arith
event_run_conserves f (s ∷ ss) b =
    omega (arith, step_conserves f s b, event_run_conserves f ss (step s b))
