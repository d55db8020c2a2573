-- ===== src/Bft/Justify.antt =====
-- protocol.go: verifyQC, safeProposal, processJustify and commitBlock, which the handlers share. A
-- call returns its outcome and the replica after it; what it wrote before an error stays written.
-- The mutex makes each handler one step.
pub mod Frame
use gemot.Prelude.{
  ℕ, zero, suc, ◌+◌, Bool, true, false, not, ◌&&◌, ◌||◌, Option, none, some, List, [], ◌∷◌, ◌++◌,
  map, Map, nat_key, get, put, delete, length, elem, ltb, leb, ◌==◌, if◌then◌else◌, ◌≡◌, refl,
}
use gemot.Prelude.Outcomes.{Outcome, ok, err, panic, require, ◌>>=◌, ◌>>◌}
use gemot.Bft.Types.{
  Qc, Block, Proposal, Vote, NewView, Message, vote, new_view, Error, LogEntry, Platform,
  not_leader, stale_view, double_vote, double_propose, safety_rule, bad_justify, bad_proposal_sig,
  wrong_leader, stale_new_view, bad_new_view_sig, bad_new_view_qc, view_mismatch, bad_vote_sig,
  parent_unknown, non_increasing_view, few_signers, duplicate_signer, bad_aggregate, genesis_qc,
  genesis_hash, is_genesis, succ64,
}
use gemot.Bft.Encoding.{block_hash, vote_digest, proposal_sign_digest, new_view_digest}
use gemot.Bft.Stores.{Transport, send, broadcast}
use gemot.Bft.Replica.{Replica, VoteKey, vote_key, quorum, leader}
use gemot.Bft.Chain.{extends}

-- The rest of a handler, after a call that changed the replica.
abbrev pub then_do :
    {S A B : Type 0} → Outcome Error A × S → (A → S → Outcome Error B × S) → Outcome Error B × S
then_do (ok a, s) k = k a s
then_do (err e, s) k = (err e, s)
then_do (panic, s) k = (panic, s)

-- A fact about such a call follows from one for each outcome of its first part.
pub then_do_cases {κ} :
    {S A B : Type 0} (Q : Outcome Error B × S → Type κ) (m : Outcome Error A × S)
    (k : A → S → Outcome Error B × S)
    → ((e : Error) → m.0 ≡ err e → Q (err e, m.1))
    → (m.0 ≡ panic → Q (panic, m.1))
    → ((a : A) → m.0 ≡ ok a → Q (k a m.1))
    → Q (then_do m k)
then_do_cases Q (ok a, s) k he hp ha = ha a refl
then_do_cases Q (err e, s) k he hp ha = he e refl
then_do_cases Q (panic, s) k he hp ha = hp refl

-- The loop over the signers, with the set of those seen.
unfoldable pub distinct : List ℕ → List ℕ → Bool
distinct seen [] = true
distinct seen (s ∷ signers) = not (elem s seen) && distinct (s ∷ seen) signers

-- An error under another one: `fmt.Errorf("%w: %v", e, err)`.
abbrev pub wrapped : {A : Type 0} → Error → Outcome Error A → Outcome Error A
wrapped e (ok a) = ok a
wrapped e (err _) = err e
wrapped e panic = panic

-- The QC on a block's parent that processJustify locks on: its signers are left empty.
unfoldable pub parent_qc : Block → ℕ → Qc
parent_qc b h = record { view = b.view; block_hash = h; signers = []; agg_sig = [] }

module _ {L V : Type 0} where
  unfoldable pub verify_qc : Replica L V → Qc → Outcome Error (Unit {0})
  unfolding quorum distinct
  verify_qc r qc = do
    require (leb (quorum r) (length qc.signers)) few_signers
    require (distinct [] qc.signers) duplicate_signer
    require (r.signer.verify_aggregate qc.signers (vote_digest qc.view qc.block_hash) qc.agg_sig)
        bad_aggregate

  -- `if !qc.IsGenesis() { if err := r.verifyQC(qc) ... }`
  unfoldable pub verify_unless_genesis : Replica L V → Qc → Error → Outcome Error (Unit {0})
  unfolding verify_qc is_genesis
  verify_unless_genesis r qc e = if is_genesis qc then ok tt else wrapped e (verify_qc r qc)

  unfoldable pub safe_proposal : Replica L V → Proposal → Bool
  safe_proposal r p =
      if ltb r.locked_qc.view p.justify.view
      then true
      else extends r.known_blocks p.block.parent r.locked_qc.block_hash

  unfoldable pub committed_already : Replica L V → ℕ → Bool
  committed_already r h = elim (get h r.committed) [ none ↦ false | some c ↦ c ]

  mark_committed : ℕ → Replica L V → Replica L V
  mark_committed h r = record r {
    committed = put h true r.committed;
    committed_log = r.committed_log ++ (h ∷ []);
  }

  unfoldable pub raise_high_qc : Qc → Replica L V → Replica L V
  raise_high_qc qc r = if ltb r.high_qc.view qc.view then record r { high_qc = qc } else r

  unfoldable pub raise_lock : Qc → Replica L V → Replica L V
  raise_lock qc r = if ltb r.locked_qc.view qc.view then record r { locked_qc = qc } else r

  unfoldable pub send_message : ℕ → Message → Replica L V → Outcome Error (Unit {0}) × Replica L V
  unfolding send
  send_message to msg r = elim (send to msg r.transport) [
    | ok t ↦ (ok tt, record r { transport = t })
    | err e ↦ (err e, r)
    | panic ↦ (panic, r)
  ]

module _ {L V : Type 0} (x : Platform L V) where
  -- r.log.Append, where a log is attached.
  append_log : LogEntry → Replica L V → Outcome Error (Unit {0}) × Replica L V
  append_log entry r = elim r.log [
    | none ↦ (ok tt, r)
    | some l ↦ elim (x.log.append entry l) [
      | ok l' ↦ (ok tt, record r { log = some l' })
      | err e ↦ (err e, r)
      | panic ↦ (panic, r)
    ]
  ]

  unfoldable pub commit_block : Block → Qc → Replica L V → Outcome Error (Unit {0}) × Replica L V
  unfolding committed_already mark_committed append_log
  commit_block b qc r =
      let h = block_hash x.sha256 b in
      if committed_already r h
      then (ok tt, r)
      else if not (b.parent == genesis_hash) && not (committed_already r b.parent)
      then (ok tt, r)
      else then_do (append_log (record { block = b; qc = qc }) r)
          (λ _ r'. (ok tt, mark_committed h r'))

  unfoldable pub lock_and_commit : Block → Replica L V → Outcome Error (Unit {0}) × Replica L V
  unfolding raise_lock parent_qc
  lock_and_commit justified r = elim (get justified.parent r.known_blocks) [
    | none ↦ (ok tt, r)
    | some parent ↦
        let r' = raise_lock (parent_qc parent justified.parent) r in
        if justified.view == succ64 parent.view
        then commit_block parent justified.justify r'
        else (ok tt, r')
  ]

  unfoldable pub process_justify : Qc → Replica L V → Outcome Error (Unit {0}) × Replica L V
  unfolding lock_and_commit raise_high_qc is_genesis
  process_justify qc r =
      if is_genesis qc then (ok tt, r) else elim (get qc.block_hash r.known_blocks) [
        | none ↦ (ok tt, raise_high_qc qc r)
        | some justified ↦ lock_and_commit justified (raise_high_qc qc r)
      ]
