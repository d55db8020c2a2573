-- ===== src/Bft/Events/Recovery.antt =====
-- A restart finds again, from the durable log, what was committed.
use gemot.Prelude.{
  ℕ, suc, ◌^◌, ◌≤◌, ◌≡◌, ◌≢◌, refl, sym, ap, ◌∙◌, true, Option, none, some, List, [], ◌∷◌, ◌++◌,
  All, nat_key, get, get-put, arith, inl, inr, subst, ◌⊎◌,
}
use gemot.Prelude.Outcomes.{Outcome, ok, err, panic, Outcome-cases}
use gemot.Bft.Types.{Qc, Error, genesis_hash, genesis_qc}
use gemot.Bft.Encoding.{block_hash}
use gemot.Bft.Stores.{InMemoryLog, InMemoryVoteHistory, in_memory, load, load_history}
use gemot.Bft.Stores.Appends.{Numbered}
use gemot.Bft.Replica.{new_replica, restore_vote_history}
use gemot.Bft.Replay.{restore_entry, restore_entries, resume, replay, attach_log}
use gemot.Bft.Events.{
  Event, proposal_in, vote_in, new_view_in, proposes, advances, times_out, crashes, step, run,
  restart, restarted, reload_log, reload_history,
}
use gemot.Bft.Events.Synced.{Node, IsSynced, SameLog, SameLog-IsSynced, hashes}
use mathlib.Core.List.{append-nil, append_assoc}
use gemot.Bft.Events.Handlers.{
  handle_proposal-IsSynced, handle_vote-IsSynced, handle_new_view-SameLog, advance_view-SameLog,
  timeout-SameLog, propose-SameLog,
}

ok-injective : {a b : Node} → ◌≡◌ {A = Outcome Error Node} (ok a) (ok b) → a ≡ b
ok-injective e = cc

-- NewReplica with a replica's own parameters.
abbrev remade : Node → Outcome Error Node
remade r = new_replica r.id r.n r.f r.signer r.transport r.roster

module _ (sha256 : List ℕ → ℕ) where
  -- The replica that Replay's loop makes.
  restored : InMemoryLog → Node → Node
  restored [] r = r
  restored (e ∷ es) r = restored es (restore_entry (in_memory sha256) e r)

  restore_entries-restored :
      (i : ℕ) (es : InMemoryLog) (r : Node)
      → Numbered i es
      → restore_entries (in_memory sha256) i es r ≡ ok (restored es r)
  unfolding restore_entries restored
  restore_entries-restored i [] r n = refl
  restore_entries-restored i (e ∷ es) r n = ground (
    arith,
    restore_entries-restored (suc i) es (restore_entry (in_memory sha256) e r) n.1,
    Numbered-le (suc i) es n.1,
  )
    where
      Numbered-le : (i : ℕ) (es : InMemoryLog) → Numbered i es → i ≤ 2 ^ 63
      Numbered-le i [] n = n
      Numbered-le i (e ∷ es) n = omega (arith, Numbered-le (suc i) es n.1)

  committed_log-restored :
      (es : InMemoryLog) (r : Node)
      → (restored es r).committed_log ≡ r.committed_log ++ hashes sha256 es
  unfolding restored restore_entry in_memory
  committed_log-restored [] r = sym (append-nil r.committed_log)
  committed_log-restored (e ∷ es) r =
      committed_log-restored es (restore_entry (in_memory sha256) e r)
      ∙ append_assoc r.committed_log (block_hash sha256 e.block ∷ []) (hashes sha256 es)

  -- What is marked stays marked.
  keeps-restored :
      (es : InMemoryLog) (r : Node) (h : ℕ)
      → get h r.committed ≡ some true
      → get h (restored es r).committed ≡ some true
  unfolding restored restore_entry in_memory
  keeps-restored [] r h m = m
  keeps-restored (e ∷ es) r h m =
      keeps-restored es (restore_entry (in_memory sha256) e r) h
        (ground (arith, get-put (block_hash sha256 e.block) h true r.committed))

  marked-restored :
      (es : InMemoryLog) (r : Node)
      → All (λ e. get (block_hash sha256 e.block) (restored es r).committed ≡ some true) es
  unfolding restored restore_entry in_memory
  marked-restored [] r = tt
  marked-restored (e ∷ es) r = (
    keeps-restored es (restore_entry (in_memory sha256) e r) (block_hash sha256 e.block) (
        ground (
          arith,
          get-put (block_hash sha256 e.block) (block_hash sha256 e.block) true r.committed,
        )),
    marked-restored es (restore_entry (in_memory sha256) e r),
  )

  -- A replica with the committed state of a replayed one.
  resume-SameLog :
      (before : Qc) (es : InMemoryLog) (r : Node)
      → SameLog r (resume (in_memory sha256) before es r)
  unfolding resume
  resume-SameLog before [] r = record { log = refl; committed = refl; committed_log = refl }
  resume-SameLog before (e ∷ []) r = record { log = refl; committed = refl; committed_log = refl }
  resume-SameLog before (e ∷ (e' ∷ es)) r = resume-SameLog e.qc (e' ∷ es) r

  -- What Replay makes of a fresh replica.
  replayed : InMemoryLog → Node → Node
  replayed es r = record (resume (in_memory sha256) genesis_qc es (restored es r)) { log = some es }

  replay-replayed :
      (es : InMemoryLog) (r : Node)
      → Numbered 0 es
      → replay (in_memory sha256) es r ≡ ok (replayed es r)
  unfolding replay attach_log replayed in_memory load
  replay-replayed es r n = rw (restore_entries-restored 0 es r n)

  replayed-IsSynced :
      (es : InMemoryLog) (r : Node)
      → Numbered 0 es
      → r.committed_log ≡ genesis_hash ∷ []
      → IsSynced sha256 (replayed es r)
  unfolding replayed
  replayed-IsSynced es r n fresh =
      let same = resume-SameLog genesis_qc es (restored es r) in
      record {
        entries = es;
        attached = refl;
        numbered = n;
        logged =
            same.committed_log
            ∙ committed_log-restored es r
            ∙ ap (λ l. l ++ hashes sha256 es) fresh;
        marked = rw same.committed (marked-restored es r);
      }

  new_replica-fresh :
      (r r0 : Node)
      → new_replica r.id r.n r.f r.signer r.transport r.roster ≡ ok r0
      → r0.committed_log ≡ genesis_hash ∷ []
  unfolding new_replica
  new_replica-fresh r r0 h = ground arith

  -- Restoring the vote history succeeds and leaves the committed state alone.
  reload_history-SameLog :
      (o : Option InMemoryVoteHistory) (r : Node)
      → (r' : Node) × (reload_history (in_memory sha256) o r ≡ ok r') × SameLog r r'
  unfolding reload_history restore_vote_history in_memory load_history
  reload_history-SameLog none r =
      (r, refl, record { log = refl; committed = refl; committed_log = refl })
  reload_history-SameLog (some vh) r =
      (_, refl, record { log = refl; committed = refl; committed_log = refl })

  -- A replica whose roster NewReplica accepts, and whose committed log agrees with its durable log,
  -- can be rebuilt after a crash: the rebuilt replica has the same committed log, and it agrees with
  -- the durable log again.
  pub restart_recovers :
      (r r0 : Node)
      → IsSynced sha256 r
      → new_replica r.id r.n r.f r.signer r.transport r.roster ≡ ok r0
      → (r' : Node) × (restart (in_memory sha256) r ≡ ok r')
        × (r'.committed_log ≡ r.committed_log)
        × IsSynced sha256 r'
  unfolding restart reload_log replayed-IsSynced
  restart_recovers r r0 v made =
      let fresh = new_replica-fresh r r0 made in
      let s = replayed-IsSynced v.entries r0 v.numbered fresh in
      let (r', e, same) = reload_history-SameLog r.vote_history (replayed v.entries r0) in
      (
        r',
        rw (made, v.attached, restart) (rw (replay-replayed v.entries r0 v.numbered) e),
        same.committed_log ∙ s.logged ∙ sym v.logged,
        SameLog-IsSynced sha256 (replayed v.entries r0) r' same s,
      )

  restart-not-ok :
      (r r' : Node)
      → ((e : Error) × (remade r ≡ err e)) ⊎ (remade r ≡ panic)
      → restart (in_memory sha256) r ≢ ok r'
  unfolding restart
  restart-not-ok r r' bad e = ground arith

  restarted-IsSynced :
      (r : Node) (o : Outcome Error Node)
      → IsSynced sha256 r
      → restart (in_memory sha256) r ≡ o
      → IsSynced sha256 (restarted (in_memory sha256) r o)
  unfolding restarted
  restarted-IsSynced r (ok r') v e = elim (Outcome-cases (remade r)) [
    | inl (r0, made) ↦
        let (r'', e'', _, s) = restart_recovers r r0 v made in
        subst (IsSynced sha256) (ok-injective (sym e'' ∙ e)) s
    | inr bad ↦ absurd (restart-not-ok r r' bad e)
  ]
  restarted-IsSynced r (err f) v e = v
  restarted-IsSynced r panic v e = v

  step-IsSynced :
      (e : Event) (r : Node) → IsSynced sha256 r → IsSynced sha256 (step (in_memory sha256) e r)
  unfolding step
  step-IsSynced (proposal_in p) r v = handle_proposal-IsSynced sha256 p r v
  step-IsSynced (vote_in w) r v = handle_vote-IsSynced sha256 w r v
  step-IsSynced (new_view_in nv) r v =
      SameLog-IsSynced sha256 r _ (handle_new_view-SameLog sha256 nv r) v
  step-IsSynced (proposes parent payload justify) r v =
      SameLog-IsSynced sha256 r _ (propose-SameLog sha256 parent payload justify r) v
  step-IsSynced (advances w) r v = SameLog-IsSynced sha256 r _ (advance_view-SameLog sha256 w r) v
  step-IsSynced times_out r v = SameLog-IsSynced sha256 r _ (timeout-SameLog sha256 r) v
  step-IsSynced crashes r v = restarted-IsSynced r (restart (in_memory sha256) r) v refl

  -- Over any life with crashes, the committed log is genesis followed by the blocks of the durable
  -- log, in order, whose heights are 1, 2, and so on.
  pub run-IsSynced :
      (es : List Event) (r : Node)
      → IsSynced sha256 r
      → IsSynced sha256 (run (in_memory sha256) es r)
  unfolding run
  run-IsSynced [] r v = v
  run-IsSynced (e ∷ es) r v = run-IsSynced es (step (in_memory sha256) e r) (step-IsSynced e r v)
