-- ===== src/Bft/Events/Handlers.antt =====
-- Every handler keeps the committed log in step with the durable log.
use gemot.Prelude.{
  ℕ, refl, some, List, length, nat_key, get, arith, Map, Option-cases, Bool-cases, inl, inr, ltb,
}
use gemot.Prelude.Outcomes.{ok}
use gemot.Bft.Types.{Qc, Block, Proposal, Vote, NewView, Message, vote}
use gemot.Bft.Stores.{in_memory}
use gemot.Bft.Replica.{quorum}
use gemot.Bft.Justify.{then_do_cases, process_justify, send_message, then_do}
use gemot.Bft.Proposals.{
  check_proposal, accept_proposal, handle_proposal, save_vote, know_block, record_vote, vote_for,
  check_propose, emit, propose,
}
use gemot.Bft.Votes.{
  handle_vote, form_qc, tally, count_vote, check_vote, drop_bucket, store_bucket, bucket_qc,
  bucket_of, key_of,
}
use gemot.Bft.Views.{advance_view, timeout, handle_new_view}
use gemot.Bft.Events.Synced.{Node, IsSynced, SameLog, SameLog-IsSynced, process_justify-IsSynced}

module _ (sha256 : List ℕ → ℕ) where
  save_vote-SameLog : (v : ℕ) (r : Node) → SameLog r (save_vote (in_memory sha256) v r).1
  unfolding save_vote
  save_vote-SameLog v r = ground arith

  send_message-SameLog : (to : ℕ) (m : Message) (r : Node) → SameLog r (send_message to m r).1
  unfolding send_message
  send_message-SameLog to m r = ground arith

  recorded-SameLog : (p : Proposal) (r : Node) → SameLog r (record_vote (in_memory sha256) p r)
  unfolding record_vote
  recorded-SameLog p r = record { log = refl; committed = refl; committed_log = refl }

  known-SameLog : (b : Block) (r : Node) → SameLog r (know_block (in_memory sha256) b r)
  unfolding know_block
  known-SameLog b r = record { log = refl; committed = refl; committed_log = refl }

  accept_proposal-IsSynced :
      (p : Proposal) (expected : ℕ) (r : Node)
      → IsSynced sha256 r
      → IsSynced sha256 (accept_proposal (in_memory sha256) p expected r).1
  unfolding accept_proposal
  accept_proposal-IsSynced p expected r v =
      let x = in_memory sha256 in
      let r1 = know_block x p.block r in
      let r2 = (save_vote x p.view r1).1 in
      let v2 : IsSynced sha256 r2 =
        SameLog-IsSynced sha256 r1 r2 (save_vote-SameLog p.view r1)
          (SameLog-IsSynced sha256 r r1 (known-SameLog p.block r) v) in
      then_do_cases (λ o. IsSynced sha256 o.1) (save_vote x p.view r1)
        (λ _ r2.
          then_do (process_justify x p.justify (record_vote x p r2))
            (λ _ r3. send_message expected (vote (vote_for x r2 p)) r3))
        (λ e q. v2) (λ q. v2)
        (λ u q.
          let r3 = (process_justify x p.justify (record_vote x p r2)).1 in
          let v3 : IsSynced sha256 r3 =
            process_justify-IsSynced sha256 p.justify (record_vote x p r2)
              (SameLog-IsSynced sha256 r2 (record_vote x p r2) (recorded-SameLog p r2) v2) in
          then_do_cases (λ o. IsSynced sha256 o.1)
            (process_justify x p.justify (record_vote x p r2))
            (λ _ r3. send_message expected (vote (vote_for x r2 p)) r3) (λ e q. v3) (λ q. v3)
            (λ u q. SameLog-IsSynced sha256 r3 _ (send_message-SameLog expected _ r3) v3))

  pub handle_proposal-IsSynced :
      (p : Proposal) (r : Node)
      → IsSynced sha256 r
      → IsSynced sha256 (handle_proposal (in_memory sha256) p r).1
  unfolding handle_proposal
  handle_proposal-IsSynced p r v =
      then_do_cases (λ o. IsSynced sha256 o.1) (check_proposal (in_memory sha256) r p, r)
        (accept_proposal (in_memory sha256) p) (λ e q. v) (λ q. v)
        (λ expected q. accept_proposal-IsSynced p expected r v)

  form_qc-IsSynced :
      (w : Vote) (bucket : Map ℕ (List ℕ)) (r : Node)
      → IsSynced sha256 r
      → IsSynced sha256 (form_qc (in_memory sha256) w bucket r).1
  unfolding form_qc drop_bucket
  form_qc-IsSynced w bucket r v =
      let x = in_memory sha256 in
      let r1 = drop_bucket (key_of w) r in
      let v1 : IsSynced sha256 r1 =
        SameLog-IsSynced sha256 r r1 (record { log = refl; committed = refl; committed_log = refl })
          v in
      let v2 = process_justify-IsSynced sha256 (bucket_qc r w bucket) r1 v1 in
      then_do_cases (λ o. IsSynced sha256 o.1) (process_justify x (bucket_qc r w bucket) r1)
        (λ _ r'. (ok (some (bucket_qc r w bucket)), r')) (λ e q. v2) (λ q. v2) (λ u q. v2)

  tally-IsSynced :
      (w : Vote) (bucket : Map ℕ (List ℕ)) (r : Node)
      → IsSynced sha256 r
      → IsSynced sha256 (tally (in_memory sha256) w bucket r).1
  unfolding tally store_bucket
  tally-IsSynced w bucket r v =
      let r1 = store_bucket (key_of w) bucket r in
      let v1 : IsSynced sha256 r1 =
        SameLog-IsSynced sha256 r r1 (record { log = refl; committed = refl; committed_log = refl })
          v in
      elim (Bool-cases (ltb (length bucket) (quorum r1))) [
        | inl few ↦ rw (few, tally) v1
        | inr enough ↦ rw (enough, tally) (form_qc-IsSynced w bucket r1 v1)
      ]

  count_vote-IsSynced :
      (w : Vote) (r : Node)
      → IsSynced sha256 r
      → IsSynced sha256 (count_vote (in_memory sha256) w r).1
  unfolding count_vote
  count_vote-IsSynced w r v = elim (Option-cases (get w.voter (bucket_of r (key_of w)))) [
    | inl first ↦ rw (first, count_vote) (tally-IsSynced w _ r v)
    | inr (_, dup) ↦ rw (dup, count_vote) v
  ]

  pub handle_vote-IsSynced :
      (w : Vote) (r : Node)
      → IsSynced sha256 r
      → IsSynced sha256 (handle_vote (in_memory sha256) w r).1
  unfolding handle_vote
  handle_vote-IsSynced w r v =
      then_do_cases (λ o. IsSynced sha256 o.1) (check_vote r w, r)
        (λ _ r'. count_vote (in_memory sha256) w r') (λ e q. v) (λ q. v)
        (λ u q. count_vote-IsSynced w r v)

  pub handle_new_view-SameLog : (nv : NewView) (r : Node) → SameLog r (handle_new_view nv r).1
  unfolding handle_new_view
  handle_new_view-SameLog nv r = ground arith

  pub advance_view-SameLog : (v : ℕ) (r : Node) → SameLog r (advance_view v r).1
  unfolding advance_view
  advance_view-SameLog v r = ground arith

  pub timeout-SameLog : (r : Node) → SameLog r (timeout r).1
  unfolding timeout
  timeout-SameLog r = record { log = refl; committed = refl; committed_log = refl }

  emit-SameLog : (b : Block) (r : Node) → SameLog r (emit (in_memory sha256) r b).1
  unfolding emit
  emit-SameLog b r = ground arith

  pub propose-SameLog :
      (parent : ℕ) (payload : List ℕ) (justify : Qc) (r : Node)
      → SameLog r (propose (in_memory sha256) parent payload justify r).1
  unfolding propose
  propose-SameLog parent payload justify r =
      let x = in_memory sha256 in
      then_do_cases (λ o. SameLog r o.1) (check_propose x r parent payload justify, r)
        (λ b r'. emit x r' b) (λ e q. same) (λ q. same) (λ b q. emit-SameLog b r)
    where
      same : SameLog r r
      same = record { log = refl; committed = refl; committed_log = refl }
