-- ===== src/Bft/Examples/Six.antt =====
-- Runs of one of six replicas, and the theorems on leaders, quorums and view changes at its state.
use gemot.Prelude.{ℕ, ◌+◌, ◌≡◌, refl, none, some, [], ◌∷◌, nat_key, get, arith, ◌<◌, All}
use gemot.Prelude.Outcomes.{ok, panic}
use gemot.Bft.Types.{Qc, NewView, genesis_qc}
use gemot.Bft.Replica.{quorum, new_replica}
use gemot.Bft.Leader.{vote_for_view_0_panics}
use gemot.Bft.Justify.{verify_qc}
use gemot.Bft.Votes.{handle_vote}
use gemot.Bft.Views.{check_new_view, new_views_for, handle_new_view}
use gemot.Bft.Views.Selection.{Newest, handle_new_view-Newest}
use gemot.Bft.Events.Synced.{Node}
use gemot.Bft.Quorum.{common}
use gemot.Bft.Quorum.Disjoint.{from, certificate, disjoint_quorums}
use gemot.Bft.Examples.{toy, trusting, replica_of, hash_1}

abbrev six : Node
six = replica_of 6 1 (0 ∷ 1 ∷ 2 ∷ 3 ∷ 4 ∷ 5 ∷ [])

-- Six replicas and one tolerated fault pass NewReplica's check.
six_is_accepted :
    new_replica 0 6 1 trusting six.transport six.roster
    ≡ ok (record six { log = none; vote_history = none })
unfolding new_replica
six_is_accepted = refl

disjoint_quorums_example :
    (verify_qc six (certificate 1 hash_1 (from 0 3) []) ≡ ok tt)
    × (verify_qc six (certificate 1 23 (from 3 3) []) ≡ ok tt)
    × All (λ i. i < 6) (from 3 3)
    × (common 6 (from 0 3) (from 3 3) ≡ 0)
disjoint_quorums_example = disjoint_quorums six 1 hash_1 23 [] [] (omega arith) refl refl

vote_for_view_0_panics_example :
    handle_vote toy (record { view = 0; block_hash = 3; voter = 77; sig = [] }) six ≡ (panic, six)
vote_for_view_0_panics_example =
    vote_for_view_0_panics toy six (record { view = 0; block_hash = 3; voter = 77; sig = [] })
      (omega arith) refl

-- Two of the six replicas ask for view 5, with QCs of views 3 and 1; a third one completes the quorum.
abbrev asks : ℕ → ℕ → NewView
asks id v = record {
  view = 5;
  high_qc = certificate v (100 + v) (from 0 3) [];
  sender = id;
  sig = [];
}

abbrev waiting : Node
waiting = record six { pending_new_views = (5, (1, asks 1 3) ∷ (2, asks 2 1) ∷ []) ∷ [] }

selected_by_three :
    (handle_new_view (asks 4 2) waiting).1.view_change_high_qc
    ≡ (5, certificate 3 103 (from 0 3) []) ∷ []
unfolding handle_new_view from
selected_by_three = refl

handle_new_view-Newest_example :
    (qc : Qc) × (get 5 (handle_new_view (asks 4 2) waiting).1.view_change_high_qc ≡ some qc)
    × Newest genesis_qc qc ((1, asks 1 3) ∷ (2, asks 2 1) ∷ (4, asks 4 2) ∷ [])
    × (get 5 (handle_new_view (asks 4 2) waiting).1.pending_new_views ≡ none)
unfolding check_new_view quorum from new_views_for
handle_new_view-Newest_example = handle_new_view-Newest (asks 4 2) waiting refl refl (omega arith)
