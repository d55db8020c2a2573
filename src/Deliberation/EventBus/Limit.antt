-- ===== src/Deliberation/EventBus/Limit.antt =====
-- The number of clients, where every subscription goes through SubscribeIfUnder.
use gemot.Prelude.{
  ℕ, ◌+◌, ◌≤◌, ◌≡◌, inl, inr, List, [], ◌∷◌, Map, nat_key, String, put, delete, length, arith, All,
}
use gemot.Prelude.Outcomes.{Outcome-cases}
use gemot.Deliberation.EventBus.{
  Event, EventBus, new_event_bus, subscribe, subscribe_if_under, client_count, offer_all, stamped,
  emit, shut_all, shutdown_event, shutdown, close_channel, close_and_remove, receive,
}
use gemot.Deliberation.EventBus.Histories.{
  Action, subscribes, subscribes_if_under, emits, shuts_down, unsubscribes, receives, step, run,
}

length-put_le : (i : ℕ) (v : Unit {0}) (m : Map ℕ (Unit {0})) → length (put i v m) ≤ length m + 1
length-put_le i v [] = omega arith
length-put_le i v ((j, w) ∷ m) = ground (arith, length-put_le i v m)

length-delete_le : (i : ℕ) (m : Map ℕ (Unit {0})) → length (delete i m) ≤ length m
length-delete_le i [] = omega arith
length-delete_le i ((j, w) ∷ m) = ground (arith, length-delete_le i m)

-- A call that subscribes only under the limit or a smaller one.
abbrev pub IsCapped : ℕ → Action → Type 0
IsCapped limit (subscribes size) = ⊥
IsCapped limit (subscribes_if_under own size) = own ≤ limit
IsCapped limit (emits now e) = Unit
IsCapped limit (shuts_down now) = Unit
IsCapped limit (unsubscribes id) = Unit
IsCapped limit (receives id) = Unit

emit_le : (now : String) (e : Event) (eb : EventBus) → (emit now e eb).1.clients ≡ eb.clients
unfolding emit
emit_le now e eb = elim (Outcome-cases (offer_all (stamped now e) eb.clients eb.channels)) [
  | inl (channels, h) ↦ ground arith
  | inr (inl (x, h)) ↦ ground arith
  | inr (inr h) ↦ ground arith
]

shutdown_le : (now : String) (eb : EventBus) → client_count (shutdown now eb).1 ≤ client_count eb
unfolding shutdown client_count
shutdown_le now eb = elim (Outcome-cases (shut_all (shutdown_event now) eb.clients eb.channels)) [
  | inl (channels, h) ↦ ground arith
  | inr (inl (x, h)) ↦ ground arith
  | inr (inr h) ↦ ground arith
]

close_and_remove_le :
    (id : ℕ) (eb : EventBus) → client_count (close_and_remove id eb).1 ≤ client_count eb
unfolding close_and_remove client_count
close_and_remove_le id eb = elim (Outcome-cases (close_channel id eb.channels)) [
  | inl (channels, h) ↦ ground (arith, length-delete_le id eb.clients)
  | inr (inl (x, h)) ↦ ground arith
  | inr (inr h) ↦ ground arith
]

receive_same : (id : ℕ) (eb : EventBus) → (receive id eb).1.clients ≡ eb.clients
unfolding receive
receive_same id eb = ground arith

step_le :
    (limit : ℕ) (a : Action) (eb : EventBus)
    → IsCapped limit a
    → client_count eb ≤ limit
    → client_count (step a eb) ≤ limit
unfolding step
step_le limit (subscribes size) eb c h = absurd c
step_le limit (subscribes_if_under own size) eb c h =
    unfold subscribe_if_under subscribe client_count in
    ground (arith, length-put_le eb.next tt eb.clients)
step_le limit (emits now e) eb c h = unfold client_count in ground (arith, emit_le now e eb)
step_le limit (shuts_down now) eb c h = omega (arith, shutdown_le now eb)
step_le limit (unsubscribes id) eb c h = omega (arith, close_and_remove_le id eb)
step_le limit (receives id) eb c h = unfold client_count in ground (arith, receive_same id eb)

run_le :
    (limit : ℕ) (as' : List Action) (eb : EventBus)
    → All (IsCapped limit) as'
    → client_count eb ≤ limit
    → client_count (run as' eb) ≤ limit
unfolding run
run_le limit [] eb c h = h
run_le limit (a ∷ as') eb c h = run_le limit as' (step a eb) c.1 (step_le limit a eb c.0 h)

-- Where every subscription to a new event bus is made under the limit or a smaller one, the bus never
-- has more clients than the limit.
pub client_count-le_limit :
    (limit : ℕ) (as' : List Action)
    → All (IsCapped limit) as'
    → client_count (run as' new_event_bus) ≤ limit
client_count-le_limit limit as' c =
    run_le limit as' new_event_bus c (unfold client_count new_event_bus in omega arith)
