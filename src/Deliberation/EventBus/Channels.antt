-- ===== src/Deliberation/EventBus/Channels.antt =====
-- No call of the event bus panics, since exactly the clients' channels are open.
use gemot.Prelude.{
  ℕ, ◌≡◌, ◌∙◌, refl, inl, inr, Bool, true, false, Option, none, some, [], ◌∷◌, ◌++◌, Map, nat_key,
  get, put, get-put, length, ltb, ◌==◌, ==_iff, ==_refl, if◌then◌else◌, arith, Bool-cases,
  Option-cases,
}
use gemot.Prelude.Unique.{Unique}
use gemot.Prelude.Outcomes.{ok}
use gemot.Deliberation.EventBus.{Event, Channel, offer, close_channel, offer_all, shut_all}

-- Whether a channel is closed, none if there is no such channel.
abbrev pub state_of : ℕ → Map ℕ Channel → Option Bool
state_of id channels = elim (get id channels) [ none ↦ none | some ch ↦ some ch.closed ]

-- A send to an open channel succeeds and leaves every channel as open as it was.
offer-open :
    (e : Event) (id : ℕ) (channels : Map ℕ Channel)
    → state_of id channels ≡ some false
    → (channels' : Map ℕ Channel) × (offer e id channels ≡ ok channels')
      × ((j : ℕ) → state_of j channels' ≡ state_of j channels)
unfolding offer
offer-open e id channels h = elim (Option-cases (get id channels)) [
  | inl absent ↦ ground arith
  | inr (ch, found) ↦ elim (Bool-cases (ltb (length ch.buffer) ch.size)) [
    | inl room ↦
        let ch' = record ch { buffer = ch.buffer ++ (e ∷ []) } in
        (put id ch' channels, ground arith, λ j. ground (arith, get-put id j ch' channels))
    | inr full ↦ (channels, ground arith, λ j. refl)
  ]
]

pub close_channel-closes :
    (id : ℕ) (channels : Map ℕ Channel)
    → state_of id channels ≡ some false
    → (channels' : Map ℕ Channel) × (close_channel id channels ≡ ok channels')
      × ((j : ℕ) → state_of j channels' ≡ (if id == j then some true else state_of j channels))
unfolding close_channel
close_channel-closes id channels h = elim (Option-cases (get id channels)) [
  | inl absent ↦ ground arith
  | inr (ch, found) ↦
      let ch' = record ch { closed = true } in
      (put id ch' channels, ground arith, λ j. ground (arith, get-put id j ch' channels))
]

-- Every client's channel is open.
abbrev pub Open : Map ℕ (Unit {0}) → Map ℕ Channel → Type 0
Open clients channels = (j : ℕ) → get j clients ≡ some tt → state_of j channels ≡ some false

pub offer_all-Open :
    (e : Event) (clients : Map ℕ (Unit {0})) (channels : Map ℕ Channel)
    → Unique clients
    → Open clients channels
    → (channels' : Map ℕ Channel) × (offer_all e clients channels ≡ ok channels')
      × ((j : ℕ) → state_of j channels' ≡ state_of j channels)
unfolding offer_all
offer_all-Open e [] channels u open' = (channels, refl, λ j. refl)
offer_all-Open e ((id, tt) ∷ clients) channels u open' =
    let (channels1, sent, same) =
      offer-open e id channels (open' id (ground (arith, ==_refl id))) in
    let (channels2, rest, same') =
      offer_all-Open e clients channels1 u.1
        (λ j h. same j ∙ open' j (ground (arith, ==_iff id j))) in
    (channels2, rw (sent, offer_all) rest, λ j. same' j ∙ same j)

pub shut_all-Open :
    (e : Event) (clients : Map ℕ (Unit {0})) (channels : Map ℕ Channel)
    → Unique clients
    → Open clients channels
    → (channels' : Map ℕ Channel) × (shut_all e clients channels ≡ ok channels')
      × ((j : ℕ)
          → state_of j channels'
            ≡ elim (get j clients) [ none ↦ state_of j channels | some _ ↦ some true ])
unfolding shut_all
shut_all-Open e [] channels u open' = (channels, refl, λ j. refl)
shut_all-Open e ((id, tt) ∷ clients) channels u open' =
    let (channels1, sent, same) =
      offer-open e id channels (open' id (ground (arith, ==_refl id))) in
    let (channels2, closed, same') =
      close_channel-closes id channels1 (same id ∙ open' id (ground (arith, ==_refl id))) in
    let (channels3, rest, same'') =
      shut_all-Open e clients channels2 u.1
        (λ j h. ground (arith, same j, same' j, open' j, ==_iff id j)) in
    (
      channels3,
      rw (sent, shut_all) (rw (closed, shut_all) rest),
      λ j. ground (arith, same'' j, same' j, same j, ==_iff id j),
    )
