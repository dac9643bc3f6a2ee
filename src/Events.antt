-- ===== src/Events.antt =====
-- crawler/communication/eventbus.go: the event bus and its goroutines.
pub mod Conserve
use go_backend_kit.Common.{
  ℕ, String, Bool, true, false, ◌&&◌, not, Option, none, some, List, [], ◌∷◌, ◌++◌, map, ◌==◌, leb,
  ltb, length, Dict, get, put, string_key, Time, is_zero, if◌then◌else◌,
}

pub record Event : Type 0 where
  pub id : String
  pub kind : String
  pub source : String
  pub target : String
  pub timestamp : Time
  pub content : String

-- The bus, the batch of the goroutine `persistEvents`, and what the surroundings see: the handler
-- calls, the events sent to Redis, the ones taken by `processLocalEvents`, the batches handed to
-- `flushEvents` and the history in Redis. A handler is its address.
pub record EventBus : Type 0 where
  pub has_redis : Bool
  pub running : Bool
  pub stop_closed : Bool
  pub subscribers : Dict String (List ℕ)
  pub event_stream : List Event
  pub batch : List Event
  pub invoked : List (ℕ × Event)
  pub sent : List Event
  pub handled : List Event
  pub flushed : List Event
  pub history : List Event

abbrev pub new_event_bus : Bool → EventBus
new_event_bus has_redis = record {
  has_redis = has_redis;
  running = false;
  stop_closed = false;
  subscribers = [];
  event_stream = [];
  batch = [];
  invoked = [];
  sent = [];
  handled = [];
  flushed = [];
  history = [];
}

-- `false` is the error "event bus already running".
unfoldable pub start : EventBus → EventBus × Bool
start b = if b.running then (b, false) else (record b { running = true }, true)

-- The errors of `Stop` are "event bus not running" and the panic of closing a closed channel.
pub data StopAnswer : Type 0 where
  stopped : StopAnswer
  not_running : StopAnswer
  close_panics : StopAnswer

-- The channel `stopCh` is made once, and `Start` makes no new one: closing it a second time panics
-- before anything else is changed.
unfoldable pub stop : EventBus → EventBus × StopAnswer
stop b =
    if b.running
    then if b.stop_closed
      then (b, close_panics)
      else (record b { running = false; stop_closed = true }, stopped)
    else (b, not_running)

unfoldable pub stamp : Time → Event → Event
stamp now e = if is_zero e.timestamp then record e { timestamp = now } else e

-- A send that does not wait: a full channel drops the event.
unfoldable pub offer : Event → List Event → List Event
offer e es = if ltb (length es) 1000 then es ++ (e ∷ []) else es

unfoldable pub publish : Time → Event → EventBus → EventBus
unfolding stamp offer
publish now e b =
    if b.running
    then record b {
      event_stream = offer (stamp now e) b.event_stream;
      sent = (if b.has_redis then b.sent ++ (stamp now e ∷ []) else b.sent);
    }
    else b

unfoldable pub handlers_of : String → EventBus → List ℕ
handlers_of kind b = elim (get kind b.subscribers) [ none ↦ [] | some hs ↦ hs ]

unfoldable pub subscribe : String → ℕ → EventBus → EventBus
unfolding handlers_of
subscribe kind h b = record b {
  subscribers = put kind (handlers_of kind b ++ (h ∷ [])) b.subscribers;
}

abbrev pub without_first : ℕ → List ℕ → List ℕ
without_first h [] = []
without_first h (g ∷ gs) = if g == h then gs else g ∷ without_first h gs

abbrev pub contains : ℕ → List ℕ → Bool
contains h [] = false
contains h (g ∷ gs) = if g == h then true else contains h gs

unfoldable pub unsubscribe : String → ℕ → EventBus → EventBus
unfolding handlers_of
unsubscribe kind h b =
    if contains h (handlers_of kind b)
    then record b { subscribers = put kind (without_first h (handlers_of kind b)) b.subscribers }
    else b

-- The handlers of the type and those of every type.
unfoldable pub handle_event : Event → EventBus → EventBus
unfolding handlers_of
handle_event e b = record b {
  invoked = b.invoked ++ map (λ h. (h, e)) (handlers_of e.kind b ++ handlers_of "*" b);
}

-- One turn of `processLocalEvents` that receives an event.
unfoldable pub local_turn : List Event → EventBus → EventBus
unfolding handle_event
local_turn [] b = b
local_turn (e ∷ es) b =
    handle_event e (record b { event_stream = es; handled = b.handled ++ (e ∷ []) })

unfoldable pub process_local : EventBus → EventBus
unfolding local_turn
process_local b = local_turn b.event_stream b

-- `flushEvents` of the batch, and a new batch. The argument is whether Redis executes the pipeline.
unfoldable pub flush_events : Bool → EventBus → EventBus
flush_events executed b = record b {
  batch = [];
  flushed = b.flushed ++ b.batch;
  history = (if b.has_redis && executed then b.history ++ b.batch else b.history);
}

-- One turn of `persistEvents` that receives an event: the hundredth of a batch flushes it.
unfoldable pub keep_in_batch : Bool → Event → EventBus → EventBus
unfolding flush_events
keep_in_batch executed e b =
    let kept = record b { batch = b.batch ++ (e ∷ []) } in
    if leb 100 (length kept.batch) then flush_events executed kept else kept

unfoldable pub persist_turn : Bool → List Event → EventBus → EventBus
unfolding keep_in_batch
persist_turn executed [] b = b
persist_turn executed (e ∷ es) b = keep_in_batch executed e (record b { event_stream = es })

unfoldable pub persist_next : Bool → EventBus → EventBus
unfolding persist_turn
persist_next executed b = persist_turn executed b.event_stream b

-- The ticker of `persistEvents`.
unfoldable pub persist_tick : Bool → EventBus → EventBus
unfolding flush_events
persist_tick executed b = if ltb 0 (length b.batch) then flush_events executed b else b

-- What callers and goroutines do, one step each; a stopped bus has goroutines that take their last
-- steps.
pub data Step : Type 0 where
  starts : Step
  stops : Step
  publishes : Time → Event → Step
  subscribes : String → ℕ → Step
  unsubscribes : String → ℕ → Step
  handles_next : Step
  persists_next : Bool → Step
  ticks : Bool → Step
  ends : Bool → Step
  redis_sends : Event → Step

unfoldable pub step : Step → EventBus → EventBus
unfolding start stop publish subscribe unsubscribe process_local persist_next persist_tick
    flush_events handle_event
step starts b = (start b).0
step stops b = (stop b).0
step (publishes now e) b = publish now e b
step (subscribes kind h) b = subscribe kind h b
step (unsubscribes kind h) b = unsubscribe kind h b
step handles_next b = process_local b
step (persists_next executed) b = persist_next executed b
step (ticks executed) b = persist_tick executed b
step (ends executed) b = flush_events executed b
step (redis_sends e) b = handle_event e b

unfoldable pub run : List Step → EventBus → EventBus
unfolding step
run [] b = b
run (s ∷ ss) b = run ss (step s b)
