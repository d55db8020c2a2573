-- ===== src/Deliberation/EventBus/Examples.antt =====
-- The theorems on the event bus at a history with a late unsubscribe.
use gemot.Prelude.{ℕ, ◌≡◌, ◌≤◌, ◌↔◌, refl, false, some, List, [], ◌∷◌, nat_key, get, arith}
use gemot.Deliberation.EventBus.{
  Event, new_event_bus, subscribe_if_under, client_count, emit, shutdown, close_and_remove,
}
use gemot.Deliberation.EventBus.Channels.{state_of}
use gemot.Deliberation.EventBus.Histories.{
  Action, subscribes_if_under, emits, shuts_down, unsubscribes, step, run, panics_in, run-Open,
}
use gemot.Deliberation.EventBus.Limit.{client_count-le_limit}

abbrev voted : Event
voted = record {
  kind = "vote_cast";
  deliberation_id = "d";
  agent_id = "a";
  detail = "";
  timestamp = "";
}

abbrev history : List Action
history =
    subscribes_if_under 2 1
    ∷ subscribes_if_under 2 1
    ∷ subscribes_if_under 2 1
    ∷ emits "t" voted
    ∷ unsubscribes 0
    ∷ emits "t" voted
    ∷ shuts_down "t"
    ∷ unsubscribes 1
    ∷ subscribes_if_under 1 1
    ∷ []

clients_of_history : client_count (run history new_event_bus) ≡ 1
unfolding client_count run step new_event_bus emit shutdown close_and_remove subscribe_if_under
clients_of_history = refl

run-Open_example :
    (panics_in history new_event_bus ≡ 0)
    × ((j : ℕ)
        → (get j (run history new_event_bus).clients ≡ some tt)
          ↔ (state_of j (run history new_event_bus).channels ≡ some false))
run-Open_example = run-Open history

client_count-le_limit_example : client_count (run history new_event_bus) ≤ 2
client_count-le_limit_example = client_count-le_limit 2 history (omega arith)
