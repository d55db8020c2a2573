-- ===== src/Bft/Events/Restart.antt =====
-- A replica rebuilt from its stores has the counters of its vote history.
use gemot.Prelude.{ℕ, suc, ◌≡◌, refl, Option, none, some, List, [], ◌∷◌, arith, inl, inr}
use gemot.Prelude.Outcomes.{ok, Outcome-cases}
use gemot.Bft.Types.{Qc, LogEntry, Platform, genesis_qc}
use gemot.Bft.Replica.{Replica, new_replica}
use gemot.Bft.Replay.{restore_entry, restore_entries, resume, replay, attach_log}
use gemot.Bft.Events.{restart, reload_log, reload_history}
use gemot.Bft.Events.Guarded.{Still}

module _ {L V : Type 0} (x : Platform L V) where
  restore_entries-Still :
      (i : ℕ) (entries : List LogEntry) (r r' : Replica L V)
      → restore_entries x i entries r ≡ ok r'
      → Still r r'
  unfolding restore_entries
  restore_entries-Still i [] r r' h = ground arith
  restore_entries-Still i (e ∷ entries) r r' h =
      ground (arith, restore_entries-Still (suc i) entries (restore_entry x e r) r')

  resume-Still :
      (before : Qc) (entries : List LogEntry) (r : Replica L V)
      → Still r (resume x before entries r)
  unfolding resume
  resume-Still before [] r = record {
    vote_history = refl;
    last_voted_view = refl;
    proposed_in_view = refl;
  }
  resume-Still before (e ∷ []) r = record {
    vote_history = refl;
    last_voted_view = refl;
    proposed_in_view = refl;
  }
  resume-Still before (e ∷ (e' ∷ entries)) r = resume-Still e.qc (e' ∷ entries) r

  attach_log-Still :
      (l : L) (entries : List LogEntry) (r r' : Replica L V)
      → attach_log x l entries r ≡ ok r'
      → Still r r'
  unfolding attach_log
  attach_log-Still l entries r r' h = elim (Outcome-cases (restore_entries x 0 entries r)) [
    | inl (r1, e) ↦
        ground (arith, restore_entries-Still 0 entries r r1 e, resume-Still genesis_qc entries r1)
    | inr e ↦ ground arith
  ]

  -- Replay restores the committed chain and neither counter.
  pub replay-Still : (l : L) (r r' : Replica L V) → replay x l r ≡ ok r' → Still r r'
  unfolding replay
  replay-Still l r r' h = elim (Outcome-cases (x.log.load l)) [
    | inl (entries, e) ↦ attach_log-Still l entries r r' (ground arith)
    | inr e ↦ ground arith
  ]

  new_replica-counters :
      (r r' : Replica L V)
      → new_replica r.id r.n r.f r.signer r.transport r.roster ≡ ok r'
      → (r'.last_voted_view ≡ 0) × (r'.proposed_in_view ≡ 0)
  unfolding new_replica
  new_replica-counters r r' h = ground arith

  reload_log-Still : (o : Option L) (r r' : Replica L V) → reload_log x o r ≡ ok r' → Still r r'
  unfolding reload_log
  reload_log-Still none r r' h = ground arith
  reload_log-Still (some l) r r' h = replay-Still l r r' h

  -- The counters of a replica are those that the vote history loads.
  abbrev pub Stored : V → Replica L V → Type 0
  Stored s r =
      (c : ℕ × ℕ) × (x.history.load s ≡ ok c)
      × (r.vote_history ≡ some s)
      × (r.last_voted_view ≡ c.0)
      × (r.proposed_in_view ≡ c.1)

  reload_history-Stored :
      (s : V) (r r' : Replica L V)
      → r.last_voted_view ≡ 0
      → r.proposed_in_view ≡ 0
      → reload_history x (some s) r ≡ ok r'
      → Stored s r'
  unfolding reload_history
  reload_history-Stored s r r' a b h = elim (Outcome-cases (x.history.load s)) [
    | inl (c, e) ↦ (c, e, ground arith, ground arith, ground arith)
    | inr e ↦ ground arith
  ]

  -- The rebuilt replica has the stored counters.
  pub restart-Stored :
      (r r' : Replica L V) (s : V) → r.vote_history ≡ some s → restart x r ≡ ok r' → Stored s r'
  unfolding restart
  restart-Stored r r' s e h =
      elim (Outcome-cases
        (new_replica {L = L} {V = V} r.id r.n r.f r.signer r.transport r.roster)) [
          | inl (r0, e0) ↦
              let (a0, b0) = new_replica-counters r r0 e0 in
              elim (Outcome-cases (reload_log x r.log r0)) [
                | inl (r1, e1) ↦
                    let st = reload_log-Still r.log r0 r1 e1 in
                    reload_history-Stored s r1 r' (ground arith) (ground arith) (ground arith)
                | inr e1 ↦ ground arith
              ]
          | inr e0 ↦ ground arith
        ]
