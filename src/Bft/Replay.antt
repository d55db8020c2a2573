-- ===== src/Bft/Replay.antt =====
-- replay.go: a fresh replica takes its committed chain from a durable log.
use gemot.Prelude.{ℕ, suc, true, some, List, [], ◌∷◌, ◌++◌, nat_key, put, ◌==◌, if◌then◌else◌}
use gemot.Prelude.Outcomes.{Outcome, ok, err, ◌>>=◌}
use gemot.Bft.Types.{Qc, Error, LogEntry, Platform, replay_gap, genesis_qc, succ64}
use gemot.Bft.Encoding.{block_hash}
use gemot.Bft.Replica.{Replica}

module _ {L V : Type 0} (x : Platform L V) where
  unfoldable pub restore_entry : LogEntry → Replica L V → Replica L V
  restore_entry e r =
      let h = block_hash x.sha256 e.block in
      record r {
        known_blocks = put h e.block r.known_blocks;
        committed = put h true r.committed;
        committed_log = r.committed_log ++ (h ∷ []);
      }

  -- The loop over the entries, of which the first has index i.
  unfoldable pub restore_entries : ℕ → List LogEntry → Replica L V → Outcome Error (Replica L V)
  unfolding restore_entry
  restore_entries i [] r = ok r
  restore_entries i (e ∷ entries) r =
      let rest = restore_entries (suc i) entries (restore_entry e r) in
      if e.block.height == succ64 i then rest else err replay_gap

  unfoldable pub resume : Qc → List LogEntry → Replica L V → Replica L V
  resume before [] r = r
  resume before (last ∷ []) r = record r {
    view = succ64 last.block.view;
    high_qc = last.qc;
    locked_qc = before;
    prepared_qc = last.qc;
  }
  resume before (e ∷ (e' ∷ entries)) r = resume e.qc (e' ∷ entries) r

  unfoldable pub attach_log : L → List LogEntry → Replica L V → Outcome Error (Replica L V)
  unfolding restore_entries resume
  attach_log l entries r = restore_entries 0 entries r >>= λ r'.
      ok (record (resume genesis_qc entries r') { log = some l })

  unfoldable pub replay : L → Replica L V → Outcome Error (Replica L V)
  unfolding attach_log
  replay l r = x.log.load l >>= λ entries. attach_log l entries r
