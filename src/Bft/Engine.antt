-- ===== src/Bft/Engine.antt =====
-- engine.go and bootstrap.go: the single-node engine (N = 1, F = 0) over its replica. The engine's
-- log, vote history and transport are the objects that its replica holds, so they stand once, in the
-- replica; `durable` says that the engine's own log field is set. The signer is the one that the key
-- store's key gives, and stays the same over a resync.
use gemot.Prelude.{
  ℕ, zero, suc, Bool, true, false, Option, none, some, List, [], ◌∷◌, last_or, ltb, ◌==◌,
  if◌then◌else◌,
}
use gemot.Prelude.Outcomes.{Outcome, ok, err, panic, ◌>>=◌}
use gemot.Bft.Types.{
  Qc, Block, Proposal, proposal, vote, new_view, Vote, Signer, Error, LogEntry, Platform,
  log_fork_detected, history_regression, not_a_vote, canceled, no_qc, qc_view_mismatch, no_log,
  lock_failed, genesis_qc, genesis_hash, succ64,
}
use gemot.Bft.Encoding.{block_hash}
use gemot.Bft.Stores.{recv, new_in_memory_network}
use gemot.Bft.Replica.{Replica, new_replica, restore_vote_history}
use gemot.Bft.Replay.{replay}
use gemot.Bft.Proposals.{handle_proposal, propose}
use gemot.Bft.Votes.{handle_vote}
use gemot.Bft.Views.{advance_view}

pub record Engine (L V : Type 0) : Type 0 where
  pub replica : Replica L V
  pub latest_hash : ℕ
  pub latest_qc : Qc
  pub durable : Bool

-- errors.Is(err, ErrLogForkDetected) || errors.Is(err, ErrHistoryRegression)
abbrev pub recoverable : Error → Bool
recoverable log_fork_detected = true
recoverable history_regression = true
recoverable _ = false

abbrev pub max_attempts : ℕ
max_attempts = 4

check_qc : ℕ → Option Qc → Outcome Error Qc
check_qc current none = err no_qc
check_qc current (some qc) = if qc.view == current then ok qc else err qc_view_mismatch

module _ {L V : Type 0} where
  unfoldable pub new_engine : Replica L V → Engine L V
  new_engine r = record {
    replica = r;
    latest_hash = genesis_hash;
    latest_qc = genesis_qc;
    durable = false;
  }

  -- latestHash and latestQC from a committed log that holds more than genesis.
  abbrev chain_state : List ℕ → Engine L V → Engine L V
  chain_state [] e = e
  chain_state (h ∷ []) e = e
  chain_state (h ∷ (h' ∷ rest)) e = record e {
    latest_hash = last_or h' rest;
    latest_qc = e.replica.high_qc;
  }

  unfoldable pub restore_chain_state : Engine L V → Engine L V
  restore_chain_state e = chain_state e.replica.committed_log e

  -- A replica method called through the engine.
  abbrev pub on_replica :
      {A B : Type 0}
      → Engine L V
      → Outcome Error A × Replica L V
      → (A → Engine L V → Outcome Error B × Engine L V)
      → Outcome Error B × Engine L V
  on_replica e (ok a, r) k = k a (record e { replica = r })
  on_replica e (err f, r) k = (err f, record e { replica = r })
  on_replica e (panic, r) k = (panic, record e { replica = r })

  -- The deferred AdvanceView of a round that has not advanced; its error is dropped.
  advance_on_exit : {A : Type 0} → ℕ → Outcome Error A × Engine L V → Outcome Error A × Engine L V
  unfolding advance_view
  advance_on_exit v (ok a, e) = (ok a, e)
  advance_on_exit v (err f, e) = (err f, record e { replica = (advance_view v e.replica).1 })
  advance_on_exit v (panic, e) = (panic, record e { replica = (advance_view v e.replica).1 })

  -- The select between the inbox and ctx.Done. `done` is its choice where the context has ended;
  -- with an empty inbox it can only end so.
  drain : Bool → Engine L V → Outcome Error Vote × Engine L V
  unfolding recv
  drain true e = (err canceled, e)
  drain false e = elim (recv e.replica.transport) [
    | none ↦ (err canceled, e)
    | some (vote v, t) ↦ (ok v, record e { replica = record e.replica { transport = t } })
    | some (proposal p, t) ↦
        (err not_a_vote, record e { replica = record e.replica { transport = t } })
    | some (new_view nv, t) ↦
        (err not_a_vote, record e { replica = record e.replica { transport = t } })
  ]

  -- A call of the engine, and the rest of the function.
  abbrev pub then_engine :
      {A B : Type 0}
      → Outcome Error A × Engine L V
      → (A → Engine L V → Outcome Error B × Engine L V)
      → Outcome Error B × Engine L V
  then_engine (ok a, e) k = k a e
  then_engine (err f, e) k = (err f, e)
  then_engine (panic, e) k = (panic, e)

module _ {L V : Type 0} (x : Platform L V) where
  finish_round : ℕ → Proposal → Qc → Engine L V → Outcome Error (Qc × Block) × Engine L V
  unfolding advance_view
  finish_round current p qc e =
      on_replica (record e { latest_hash = block_hash x.sha256 p.block; latest_qc = qc })
        (advance_view (succ64 current) e.replica) (λ _ e'. (ok (qc, p.block), e'))

  -- The round after Propose.
  self_vote : Bool → ℕ → Proposal → Engine L V → Outcome Error (Qc × Block) × Engine L V
  unfolding finish_round drain check_qc handle_proposal handle_vote
  self_vote done current p e = on_replica e (handle_proposal x p e.replica) (λ _ e1.
      then_engine (drain done e1) (λ v e2.
        on_replica e2 (handle_vote x v e2.replica)
          (λ formed e3. then_engine (check_qc current formed, e3) (finish_round current p))))

  unfoldable pub submit_once : Bool → List ℕ → Engine L V → Outcome Error (Qc × Block) × Engine L V
  unfolding self_vote advance_on_exit propose
  submit_once done payload e =
      let current = e.replica.view in
      on_replica e (propose x e.latest_hash payload e.latest_qc e.replica)
        (λ p e'. advance_on_exit (succ64 current) (self_vote done current p e'))

  replay_if : Option L → Replica L V → Outcome Error (Replica L V)
  unfolding replay
  replay_if none r = ok r
  replay_if (some l) r = replay x l r

  -- The vote history's last proposed view, and the replica that has restored it.
  restore_if : Option V → Replica L V → Outcome Error (ℕ × Replica L V)
  unfolding restore_vote_history
  restore_if none r = ok (0, r)
  restore_if (some vh) r =
      x.history.load vh >>= λ counters. (restore_vote_history x vh r >>= λ r'. ok (counters.1, r'))

  skip_proposed : ℕ × Replica L V → Outcome Error (Replica L V)
  unfolding advance_view
  skip_proposed (last_proposed, r) =
      let needed = succ64 last_proposed in
      if ltb r.view needed then ok (advance_view needed r).1 else ok r

  unfoldable pub build_single_node_replica :
      Signer → Option L → Option V → Outcome Error (Replica L V)
  unfolding replay_if restore_if skip_proposed new_replica new_in_memory_network
  build_single_node_replica signer log vote_history =
      new_replica 0 1 0 signer (new_in_memory_network (0 ∷ []) 0) (0 ∷ []) >>= λ r.
      (replay_if log r >>= λ r1. (restore_if vote_history r1 >>= skip_proposed))

  is_set : Option L → Bool
  is_set none = false
  is_set (some l) = true

  unfoldable pub bootstrap_single_node : Signer → Option L → Option V → Outcome Error (Engine L V)
  unfolding build_single_node_replica new_engine restore_chain_state is_set
  bootstrap_single_node signer log vote_history =
      build_single_node_replica signer log vote_history >>= λ r.
      ok (restore_chain_state (record (new_engine r) { durable = is_set log }))

  adopt : Engine L V → Outcome Error (Replica L V) → Outcome Error (Unit {0}) × Engine L V
  unfolding restore_chain_state
  adopt e (ok r) = (
    ok tt,
    restore_chain_state
        (record e { replica = r; latest_hash = genesis_hash; latest_qc = genesis_qc }),
  )
  adopt e (err f) = (err f, e)
  adopt e panic = (panic, e)

  unfoldable pub resync_from_log : Engine L V → Outcome Error (Unit {0}) × Engine L V
  unfolding adopt build_single_node_replica
  resync_from_log e =
      if e.durable
      then adopt e (build_single_node_replica e.replica.signer e.replica.log e.replica.vote_history)
      else (err no_log, e)

  -- What follows a round: its result, or a resync and another attempt after a conflict.
  settle :
      (Error → Engine L V → Outcome Error (Qc × Block) × Engine L V)
      → Outcome Error (Qc × Block) × Engine L V
      → Outcome Error (Qc × Block) × Engine L V
  unfolding resync_from_log
  settle retry (ok result, e) = (ok result, e)
  settle retry (panic, e) = (panic, e)
  settle retry (err f, e) =
      if recoverable f then then_engine (resync_from_log e) (λ _ s. retry f s) else (err f, e)

  -- The attempts that are left, and the error that is returned when none is. The select's choice
  -- may differ from attempt to attempt.
  unfoldable pub attempt :
      ℕ → Error → (ℕ → Bool) → List ℕ → Engine L V → Outcome Error (Qc × Block) × Engine L V
  unfolding settle
  attempt zero last_conflict done payload e = (err last_conflict, e)
  attempt (suc left) last_conflict done payload e =
      settle (λ f e'. attempt left f done payload e') (submit_once (done left) payload e)

  unfoldable pub submit_locked :
      (ℕ → Bool) → List ℕ → Engine L V → Outcome Error (Qc × Block) × Engine L V
  unfolding attempt
  submit_locked done payload e = attempt max_attempts log_fork_detected done payload e

  -- Submit. The cluster lock is none where no ClusterLocker is installed, and otherwise says whether
  -- WithLock gets the lock, and so runs the round.
  unfoldable pub submit :
      Option Bool → (ℕ → Bool) → List ℕ → Engine L V → Outcome Error (Qc × Block) × Engine L V
  unfolding submit_locked
  submit none done payload e = submit_locked done payload e
  submit (some true) done payload e = submit_locked done payload e
  submit (some false) done payload e = (err lock_failed, e)

  unfoldable pub audit_entries : Engine L V → Outcome Error (List LogEntry)
  audit_entries e = elim e.replica.log [ none ↦ ok [] | some l ↦ x.log.load l ]
