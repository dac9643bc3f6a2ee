-- ===== src/Tests/Publishing.antt =====
-- crawler/communication/eventbus.go at concrete inputs.
use go_backend_kit.Common.{◌+◌, pos, get, put, false, true, ◌≡◌, refl, List, [], ◌∷◌, length}
use go_backend_kit.Events.{
  Event, Step, starts, publishes, subscribes, handles_next, persists_next, new_event_bus, run,
}
use go_backend_kit.Events.Conserve.{weigh_bus, weigh_all_taken, event_run_conserves}

abbrev finished_event : Event
finished_event = record {
  id = "e1";
  kind = "task.complete";
  source = "task_manager";
  target = "*";
  timestamp = pos 0;
  content = "";
}

-- The persisting goroutine is the first to receive: the subscriber is not called.
abbrev persist_first : List Step
persist_first =
    starts
    ∷ subscribes "task.complete" 7
    ∷ publishes (pos 5) finished_event
    ∷ persists_next true
    ∷ handles_next
    ∷ []

abbrev handle_first : List Step
handle_first =
    starts
    ∷ subscribes "task.complete" 7
    ∷ publishes (pos 5) finished_event
    ∷ handles_next
    ∷ persists_next true
    ∷ []

subscriber_missed : (run persist_first (new_event_bus false)).invoked ≡ []
unfolding run
subscriber_missed = refl

subscriber_called : length (run handle_first (new_event_bus false)).invoked ≡ 1
unfolding run get put
subscriber_called = refl

event_run_conserves_example :
    weigh_bus (λ id. 1) (run persist_first (new_event_bus false))
    ≡ weigh_bus (λ id. 1) (new_event_bus false)
      + weigh_all_taken (λ id. 1) persist_first (new_event_bus false)
event_run_conserves_example = event_run_conserves (λ id. 1) persist_first (new_event_bus false)
