-- ===== src/Deliberation/EventBus.antt =====
-- internal/deliberation/events.go: the subscribers of the event bus. Each method holds the lock from
-- its first to its last access, so a history is a sequence of calls. A channel is a number, a new one
-- for each subscription, with the events in its buffer. What a panic leaves, and the optional payload
-- of an event, are left out.
pub mod Channels
pub mod Histories
pub mod Limit
mod Examples
use gemot.Prelude.{
  ℕ, ◌+◌, ◌-◌, Bool, true, false, Option, none, some, List, [], ◌∷◌, ◌++◌, Map, String, str_eq, get,
  put, delete, nat_key, length, ltb, leb, if◌then◌else◌,
}
use gemot.Prelude.Outcomes.{Outcome, ok, err, panic}

pub record Event : Type 0 where
  pub kind : String
  pub deliberation_id : String
  pub agent_id : String
  pub detail : String
  pub timestamp : String

-- make(chan Event, size)
pub record Channel : Type 0 where
  pub size : ℕ
  pub buffer : List Event
  pub closed : Bool

-- The bus's set of clients, and the channels that there are.
pub record EventBus : Type 0 where
  pub clients : Map ℕ (Unit {0})
  pub channels : Map ℕ Channel
  pub next : ℕ

unfoldable pub new_event_bus : EventBus
new_event_bus = record { clients = []; channels = []; next = 0 }

pub data Error : Type 0 where
  too_many_clients : Error

abbrev pub Call : Type 0 → Type 0
Call A = Outcome Error A × EventBus

unfoldable pub subscribe : ℕ → EventBus → ℕ × EventBus
subscribe size eb =
    let ch : Channel = record { size = size; buffer = []; closed = false } in
    (
      eb.next,
      record {
        clients = put eb.next tt eb.clients;
        channels = put eb.next ch eb.channels;
        next = eb.next + 1;
      },
    )

unfoldable pub client_count : EventBus → ℕ
client_count eb = length eb.clients

-- The channel that is made before the check is garbage where the check fails.
unfoldable pub subscribe_if_under : ℕ → ℕ → EventBus → Call ℕ
unfolding subscribe client_count
subscribe_if_under limit size eb =
    let made = subscribe size eb in
    if leb limit (client_count eb) then (err too_many_clients, eb) else (ok made.0, made.1)

-- select { case ch <- e: default: }, with no reader waiting: a full buffer drops the event, and a
-- closed channel panics.
unfoldable pub offer : Event → ℕ → Map ℕ Channel → Outcome Error (Map ℕ Channel)
offer e id channels = elim (get id channels) [
  | none ↦ panic
  | some ch ↦
      if ch.closed
      then panic
      else ok (
          if ltb (length ch.buffer) ch.size
          then put id (record ch { buffer = ch.buffer ++ (e ∷ []) }) channels
          else channels)
]

-- close(ch)
unfoldable pub close_channel : ℕ → Map ℕ Channel → Outcome Error (Map ℕ Channel)
close_channel id channels = elim (get id channels) [
  | none ↦ panic
  | some ch ↦ if ch.closed then panic else ok (put id (record ch { closed = true }) channels)
]

unfoldable pub offer_all : Event → Map ℕ (Unit {0}) → Map ℕ Channel → Outcome Error (Map ℕ Channel)
unfolding offer
offer_all e [] channels = ok channels
offer_all e ((id, _) ∷ clients) channels = elim (offer e id channels) [
  | ok channels' ↦ offer_all e clients channels'
  | err x ↦ err x
  | panic ↦ panic
]

unfoldable pub stamped : String → Event → Event
stamped now e = if str_eq e.timestamp "" then record e { timestamp = now } else e

unfoldable pub emit : String → Event → EventBus → Call (Unit {0})
unfolding stamped offer_all
emit now e eb = elim (offer_all (stamped now e) eb.clients eb.channels) [
  | ok channels ↦ (ok tt, record eb { channels = channels })
  | err x ↦ (err x, eb)
  | panic ↦ (panic, eb)
]

unfoldable pub shutdown_event : String → Event
shutdown_event now = record {
  kind = "server_shutdown";
  deliberation_id = "";
  agent_id = "";
  detail = "";
  timestamp = now;
}

-- The loop of Shutdown: each client is offered the event, closed and taken out of the set.
unfoldable pub shut_all : Event → Map ℕ (Unit {0}) → Map ℕ Channel → Outcome Error (Map ℕ Channel)
unfolding offer close_channel
shut_all e [] channels = ok channels
shut_all e ((id, _) ∷ clients) channels = elim (offer e id channels) [
  | ok offered ↦ elim (close_channel id offered) [
    | ok closed ↦ shut_all e clients closed
    | err x ↦ err x
    | panic ↦ panic
  ]
  | err x ↦ err x
  | panic ↦ panic
]

unfoldable pub shutdown : String → EventBus → Call (Unit {0})
unfolding shutdown_event shut_all
shutdown now eb = elim (shut_all (shutdown_event now) eb.clients eb.channels) [
  | ok channels ↦ (ok tt, record eb { clients = []; channels = channels })
  | err x ↦ (err x, eb)
  | panic ↦ (panic, eb)
]

-- What a subscriber's unsubscribe function does.
unfoldable pub close_and_remove : ℕ → EventBus → Call (Unit {0})
unfolding close_channel
close_and_remove id eb = elim (get id eb.clients) [
  | none ↦ (ok tt, eb)
  | some _ ↦ elim (close_channel id eb.channels) [
    | ok channels ↦ (ok tt, record eb { clients = delete id eb.clients; channels = channels })
    | err x ↦ (err x, eb)
    | panic ↦ (panic, eb)
  ]
]

-- A subscriber takes the next event from its channel's buffer, if there is one.
unfoldable pub receive : ℕ → EventBus → Option Event × EventBus
receive id eb = elim (get id eb.channels) [
  | none ↦ (none, eb)
  | some ch ↦ elim ch.buffer [
    | [] ↦ (none, eb)
    | e ∷ rest ↦ (some e, record eb { channels = put id (record ch { buffer = rest }) eb.channels })
  ]
]
