-- ===== src/Bft/Events/Guarded.antt =====
-- The anti-equivocation counters never run ahead of the vote history.
use gemot.Prelude.{ℕ, ◌≤◌, ◌<◌, ◌≡◌, refl, some, List, arith, inl, inr, ◌⊎◌, ◌≢◌}
use gemot.Prelude.Outcomes.{Outcome, ok, Outcome-cases}
use gemot.Bft.Types.{
  Block, Proposal, Vote, NewView, VoteHistoryStore, Platform, Error, Message, vote,
}
use gemot.Bft.Stores.{in_memory, save_vote, save_proposal, load_history}
use gemot.Bft.Replica.{Replica}
use gemot.Bft.Justify.{process_justify, then_do, send_message}
use gemot.Bft.Justify.Frame.{process_justify-Frame}
use gemot.Bft.Proposals.{check_proposal, accept_proposal, record_vote, vote_for, know_block, emit}
use gemot.Bft.Votes.{handle_vote}
use gemot.Bft.Views.{advance_view, timeout, handle_new_view}

-- The store loads counters that are at least these.
abbrev pub Covers : {V : Type 0} → VoteHistoryStore V → V → ℕ → ℕ → Type 0
Covers h s voted proposed = (c : ℕ × ℕ) × (h.load s ≡ ok c) × (voted ≤ c.0) × (proposed ≤ c.1)

-- What VoteHistoryStore promises: a save that succeeds is loaded later, and takes nothing back.
pub record HistoryLaws {V : Type 0} (h : VoteHistoryStore V) : Type 0 where
  pub save_vote_lem :
      (v a b : ℕ) (s s' : V) → h.save_vote v s ≡ ok s' → Covers h s a b → Covers h s' v b
  pub save_proposal_lem :
      (v a b : ℕ) (s s' : V) → h.save_proposal v s ≡ ok s' → Covers h s a b → Covers h s' a v

pub record IsGuarded {L V : Type 0} (x : Platform L V) (r : Replica L V) : Type 0 where
  pub store : V
  pub attached : r.vote_history ≡ some store
  pub covers : Covers x.history store r.last_voted_view r.proposed_in_view

-- The in-memory store keeps the promise.
pub in_memory-HistoryLaws : (sha256 : List ℕ → ℕ) → HistoryLaws (in_memory sha256).history
unfolding in_memory save_vote save_proposal load_history
in_memory-HistoryLaws sha256 = record {
  save_vote_lem =
      λ v a b s s' e (c, l, p, q). ((v, s.last_proposed), ground arith, omega arith, ground arith);
  save_proposal_lem =
      λ v a b s s' e (c, l, p, q). ((s.last_voted, v), ground arith, ground arith, omega arith);
}

module _ {L V : Type 0} (x : Platform L V) where
  -- An accepted proposal is newer than the last vote.
  pub check_proposal-lt :
      (r : Replica L V) (p : Proposal) {e : ℕ}
      → check_proposal x r p ≡ ok e
      → r.last_voted_view < p.view
  unfolding check_proposal
  check_proposal-lt r p h = ground arith

-- What a save and its handler did to the counters: it succeeded and the counters are now a and b, or
-- it failed, nothing moved, and the handler reports no success.
abbrev pub Saved :
    {L V A : Type 0}
    → Outcome Error V
    → V
    → ℕ
    → ℕ
    → Replica L V
    → Outcome Error A × Replica L V
    → Type 0
Saved {V} {A} saved s a b r o =
    ((s' : V) × (saved ≡ ok s')
      × (o.1.vote_history ≡ some s')
      × (o.1.last_voted_view ≡ a)
      × (o.1.proposed_in_view ≡ b))
    ⊎ ((o.1.vote_history ≡ some s)
        × (o.1.last_voted_view ≡ r.last_voted_view)
        × (o.1.proposed_in_view ≡ r.proposed_in_view)
        × ((y : A) → o.0 ≢ ok y))

module _ {L V : Type 0} (x : Platform L V) where
  -- The part of HandleProposal after the save.
  voted_frame :
      (p : Proposal) (expected : ℕ) (m : Message) (r : Replica L V)
      → let o = then_do (process_justify x p.justify r) (λ _ r3. send_message expected m r3) in
        (o.1.vote_history ≡ r.vote_history)
        × (o.1.last_voted_view ≡ r.last_voted_view)
        × (o.1.proposed_in_view ≡ r.proposed_in_view)
  unfolding send_message
  voted_frame p expected m r = grind (arith, process_justify-Frame)

  pub accept_proposal-Saved :
      (p : Proposal) (expected : ℕ) (r : Replica L V) (s : V)
      → r.vote_history ≡ some s
      → Saved
          (x.history.save_vote p.view s)
          s
          p.view
          r.proposed_in_view
          r
          (accept_proposal x p expected r)
  unfolding accept_proposal
  accept_proposal-Saved p expected r s e = elim (Outcome-cases (x.history.save_vote p.view s)) [
    | inl (s', q) ↦
        let r2 = record (know_block x p.block r) { vote_history = some s' } in
        inl (
          s',
          q,
          ground (arith, voted_frame p expected (vote (vote_for x r2 p)) (record_vote x p r2)),
          ground (arith, voted_frame p expected (vote (vote_for x r2 p)) (record_vote x p r2)),
          ground (arith, voted_frame p expected (vote (vote_for x r2 p)) (record_vote x p r2)),
        )
    | inr (inl (f, q)) ↦ inr (ground arith, ground arith, ground arith, λ y h. ground arith)
    | inr (inr q) ↦ inr (ground arith, ground arith, ground arith, λ y h. ground arith)
  ]

  pub emit-Saved :
      (b : Block) (r : Replica L V) (s : V)
      → r.vote_history ≡ some s
      → Saved (x.history.save_proposal r.view s) s r.last_voted_view r.view r (emit x r b)
  unfolding emit
  emit-Saved b r s e = elim (Outcome-cases (x.history.save_proposal r.view s)) [
    | inl (s', q) ↦ inl (s', q, ground arith, ground arith, ground arith)
    | inr (inl (f, q)) ↦ inr (ground arith, ground arith, ground arith, λ y h. ground arith)
    | inr (inr q) ↦ inr (ground arith, ground arith, ground arith, λ y h. ground arith)
  ]

-- The counters and the vote history stand still.
pub record Still {L V : Type 0} (r r' : Replica L V) : Type 0 where
  pub vote_history : r'.vote_history ≡ r.vote_history
  pub last_voted_view : r'.last_voted_view ≡ r.last_voted_view
  pub proposed_in_view : r'.proposed_in_view ≡ r.proposed_in_view

module _ {L V : Type 0} (x : Platform L V) where
  pub handle_vote-Still : (v : Vote) (r : Replica L V) → Still r (handle_vote x v r).1
  unfolding handle_vote
  handle_vote-Still v r = grind (arith, process_justify-Frame)

pub handle_new_view-Still :
    {L V : Type 0} (nv : NewView) (r : Replica L V) → Still r (handle_new_view nv r).1
unfolding handle_new_view
handle_new_view-Still nv r = ground arith

pub advance_view-Still : {L V : Type 0} (v : ℕ) (r : Replica L V) → Still r (advance_view v r).1
unfolding advance_view
advance_view-Still v r = ground arith

pub timeout-Still : {L V : Type 0} (r : Replica L V) → Still r (timeout r).1
unfolding timeout
timeout-Still r = record { vote_history = refl; last_voted_view = refl; proposed_in_view = refl }
