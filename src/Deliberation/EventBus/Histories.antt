-- ===== src/Deliberation/EventBus/Histories.antt =====
-- Any sequence of calls of the event bus.
use gemot.Prelude.{
  ℕ, ◌+◌, ◌≡◌, ◌≢◌, ◌≤◌, ◌∙◌, ◌↔◌, sym, refl, inl, inr, Bool, true, false, none, some, List, [],
  ◌∷◌, Map, nat_key, String, get, put, delete, get-put, get-delete, leb, if◌then◌else◌, arith,
  Bool-cases, Option-cases, List-cases,
}
use gemot.Prelude.Unique.{Unique, put-Unique, delete-Unique}
use gemot.Prelude.Outcomes.{Outcome, ok, err, panic}
use gemot.Deliberation.EventBus.{
  Event, Channel, EventBus, new_event_bus, Error, subscribe, subscribe_if_under, client_count, emit,
  stamped, shutdown_event, shutdown, close_and_remove, receive,
}
use gemot.Deliberation.EventBus.Channels.{
  state_of, Open, offer_all-Open, shut_all-Open, close_channel-closes,
}

-- A subscriber's unsubscribe function may be called at any time, and more than once.
pub data Action : Type 0 where
  subscribes : ℕ → Action
  subscribes_if_under : ℕ → ℕ → Action
  emits : String → Event → Action
  shuts_down : String → Action
  unsubscribes : ℕ → Action
  receives : ℕ → Action

unfoldable pub step : Action → EventBus → EventBus
step (subscribes size) eb = (subscribe size eb).1
step (subscribes_if_under limit size) eb = (subscribe_if_under limit size eb).1
step (emits now e) eb = (emit now e eb).1
step (shuts_down now) eb = (shutdown now eb).1
step (unsubscribes id) eb = (close_and_remove id eb).1
step (receives id) eb = (receive id eb).1

abbrev is_panic : {A : Type 0} → Outcome Error A → Bool
is_panic (ok _) = false
is_panic (err _) = false
is_panic panic = true

-- Whether a call panics, as a send to a closed channel or a second close does.
unfoldable pub panics : Action → EventBus → Bool
panics (emits now e) eb = is_panic (emit now e eb).0
panics (shuts_down now) eb = is_panic (shutdown now eb).0
panics (unsubscribes id) eb = is_panic (close_and_remove id eb).0
panics (subscribes_if_under limit size) eb = is_panic (subscribe_if_under limit size eb).0
panics _ eb = false

unfoldable pub run : List Action → EventBus → EventBus
unfolding step
run [] eb = eb
run (a ∷ as') eb = run as' (step a eb)

unfoldable pub panics_in : List Action → EventBus → ℕ
unfolding panics step
panics_in [] eb = 0
panics_in (a ∷ as') eb = (if panics a eb then 1 else 0) + panics_in as' (step a eb)

-- Exactly the clients' channels are open, and a new channel's number is new.
record IsSound (eb : EventBus) : Type 0 where
  unique : Unique eb.clients
  open' : Open eb.clients eb.channels
  shut : (j : ℕ) → get j eb.clients ≡ none → state_of j eb.channels ≢ some false
  fresh : (j : ℕ) → eb.next ≤ j → (get j eb.clients ≡ none) × (get j eb.channels ≡ none)

-- A step keeps this and does not panic.
abbrev Safe : Action → EventBus → Type 0
Safe a eb = IsSound (step a eb) × (panics a eb ≡ false)

-- Where the set of clients stays and each channel is as open as before.
same-IsSound :
    (channels : Map ℕ Channel) (eb : EventBus)
    → ((j : ℕ) → state_of j channels ≡ state_of j eb.channels)
    → IsSound eb
    → IsSound (record eb { channels = channels })
same-IsSound channels eb same v = record {
  unique = v.unique;
  open' = λ j h. same j ∙ v.open' j h;
  shut = λ j h e. v.shut j h (sym (same j) ∙ e);
  fresh = λ j h. ((v.fresh j h).0, ground (arith, same j, v.fresh j h));
}

subscribe-IsSound : (size : ℕ) (eb : EventBus) → IsSound eb → IsSound (subscribe size eb).1
unfolding subscribe
subscribe-IsSound size eb v =
    let ch : Channel = record { size = size; buffer = []; closed = false } in
    record {
      unique = put-Unique eb.next tt eb.clients v.unique;
      open' = λ j h.
          ground
            (arith, v.open' j, get-put eb.next j tt eb.clients, get-put eb.next j ch eb.channels);
      shut = λ j h.
          ground
            (arith, v.shut j, get-put eb.next j tt eb.clients, get-put eb.next j ch eb.channels);
      fresh = λ j h.
          ground
            (arith, v.fresh j, get-put eb.next j tt eb.clients, get-put eb.next j ch eb.channels);
    }

Safe-by :
    (a : Action) (eb eb' : EventBus)
    → step a eb ≡ eb'
    → panics a eb ≡ false
    → IsSound eb'
    → Safe a eb
Safe-by a eb eb' e p v = (rw e v, p)

emit-Safe : (now : String) (e : Event) (eb : EventBus) → IsSound eb → Safe (emits now e) eb
unfolding step panics emit
emit-Safe now e eb v =
    let (channels, sent, same) =
      offer_all-Open (stamped now e) eb.clients eb.channels v.unique v.open' in
    Safe-by (emits now e) eb (record eb { channels = channels }) (ground arith) (ground arith)
      (same-IsSound channels eb same v)

shutdown-Safe : (now : String) (eb : EventBus) → IsSound eb → Safe (shuts_down now) eb
unfolding step panics shutdown
shutdown-Safe now eb v =
    let (channels, sent, closed) =
      shut_all-Open (shutdown_event now) eb.clients eb.channels v.unique v.open' in
    let after : IsSound (record eb { clients = []; channels = channels }) = record {
      unique = tt;
      open' = λ j h. cc;
      shut = λ j h. ground (arith, closed j, v.shut j);
      fresh = λ j h. (refl, ground (arith, closed j, v.fresh j));
    } in
    Safe-by (shuts_down now) eb (record { clients = []; channels = channels; next = eb.next })
      (ground arith) (ground arith) after

close_and_remove-Safe : (id : ℕ) (eb : EventBus) → IsSound eb → Safe (unsubscribes id) eb
unfolding step panics close_and_remove
close_and_remove-Safe id eb v = elim (Option-cases (get id eb.clients)) [
  | inl gone ↦ Safe-by (unsubscribes id) eb eb (ground arith) (ground arith) v
  | inr (it, present) ↦
      let (channels, done, closed) = close_channel-closes id eb.channels (v.open' id present) in
      let after : IsSound (record eb { clients = delete id eb.clients; channels = channels }) =
        record {
          unique = delete-Unique id eb.clients v.unique;
          open' = λ j h. ground (arith, v.open' j, closed j, get-delete id j eb.clients);
          shut = λ j h. ground (arith, v.shut j, closed j, get-delete id j eb.clients);
          fresh =
              λ j h. ground (arith, v.fresh j, closed j, get-delete id j eb.clients, v.fresh id);
        } in
      Safe-by (unsubscribes id) eb
        (record eb { clients = delete id eb.clients; channels = channels }) (ground arith)
        (ground arith) after
]

receive-IsSound : (id : ℕ) (eb : EventBus) → IsSound eb → IsSound (receive id eb).1
unfolding receive
receive-IsSound id eb v = elim (Option-cases (get id eb.channels)) [
  | inl absent ↦ rw (absent, receive) v
  | inr (ch, found) ↦ elim (List-cases ch.buffer) [
    | inl empty ↦ let same : (receive id eb).1 ≡ eb = ground arith in rw same v
    | inr (e, rest, some_event) ↦
        let ch' = record ch { buffer = rest } in
        let after : (receive id eb).1 ≡ record eb { channels = put id ch' eb.channels } =
          ground arith in
        rw after (
          same-IsSound (put id ch' eb.channels) eb
            (λ j. ground (arith, get-put id j ch' eb.channels)) v)
  ]
]

subscribe_if_under-Safe :
    (limit size : ℕ) (eb : EventBus) → IsSound eb → Safe (subscribes_if_under limit size) eb
unfolding step panics subscribe_if_under
subscribe_if_under-Safe limit size eb v = elim (Bool-cases (leb limit (client_count eb))) [
  | inl full ↦ Safe-by (subscribes_if_under limit size) eb eb (ground arith) (ground arith) v
  | inr room ↦
      Safe-by (subscribes_if_under limit size) eb (subscribe size eb).1 (ground arith)
        (ground arith) (subscribe-IsSound size eb v)
]

step-Safe : (a : Action) (eb : EventBus) → IsSound eb → Safe a eb
step-Safe (subscribes size) eb v = unfold step panics in (subscribe-IsSound size eb v, refl)
step-Safe (subscribes_if_under limit size) eb v = subscribe_if_under-Safe limit size eb v
step-Safe (emits now e) eb v = emit-Safe now e eb v
step-Safe (shuts_down now) eb v = shutdown-Safe now eb v
step-Safe (unsubscribes id) eb v = close_and_remove-Safe id eb v
step-Safe (receives id) eb v = unfold step panics in (receive-IsSound id eb v, refl)

run-Sound :
    (as' : List Action) (eb : EventBus) → IsSound eb → IsSound (run as' eb) × (panics_in as' eb ≡ 0)
unfolding run panics_in
run-Sound [] eb v = (v, refl)
run-Sound (a ∷ as') eb v =
    let (v', p) = step-Safe a eb v in
    let (v'', p') = run-Sound as' (step a eb) v' in (v'', ground arith)

new_event_bus-IsSound : IsSound new_event_bus
unfolding new_event_bus
new_event_bus-IsSound = record {
  unique = tt;
  open' = λ j h. cc;
  shut = λ j h. cc;
  fresh = λ j h. (refl, refl);
}

-- Whatever calls are made of a new event bus, in any order, with unsubscribe functions called late or
-- more than once: no call panics, and in the end exactly the clients' channels are open.
pub run-Open :
    (as' : List Action)
    → (panics_in as' new_event_bus ≡ 0)
      × ((j : ℕ)
          → (get j (run as' new_event_bus).clients ≡ some tt)
            ↔ (state_of j (run as' new_event_bus).channels ≡ some false))
run-Open as' =
    let (v, p) = run-Sound as' new_event_bus new_event_bus-IsSound in
    (p, λ j. (v.open' j, λ h. client j v h))
  where
    client :
        {eb : EventBus} (j : ℕ)
        → IsSound eb
        → state_of j eb.channels ≡ some false
        → get j eb.clients ≡ some tt
    client {eb} j v h = elim (Option-cases (get j eb.clients)) [
      | inl gone ↦ absurd (v.shut j gone h)
      | inr (it, present) ↦ present
    ]
