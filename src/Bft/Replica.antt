-- ===== src/Bft/Replica.antt =====
-- state.go and replay.go's state: the record of a replica, its construction, its leader rotation
-- and its quorum. n and f are the non-negative values of the source's ints.
use gemot.Prelude.{
  ℕ, ◌+◌, ◌-◌, ◌*◌, ◌%◌, ◌^◌, ◌≡◌, ◌↔◌, Bool, true, ◌&&◌, Option, none, some, List, [], ◌∷◌, Key,
  Map, length, get_elem?, ltb, leb, ◌==◌, if◌then◌else◌, arith,
}
use gemot.Prelude.Outcomes.{Outcome, ok, err, panic}
use gemot.Bft.Types.{
  Qc, Block, NewView, Signer, Error, Platform, bad_replica_count, bad_fault_bound, bad_roster,
  genesis_qc, genesis_hash, two64, pred64,
}
use gemot.Bft.Stores.{Transport}

pub record VoteKey : Type 0 where
  pub view : ℕ
  pub hash : ℕ

abbrev pub same_vote_key : VoteKey → VoteKey → Bool
same_vote_key a b = a.view == b.view && a.hash == b.hash

pub same_vote_key_iff : (a b : VoteKey) → (same_vote_key a b ≡ true) ↔ (a ≡ b)
same_vote_key_iff a b = (λ h. ground arith, λ h. ground arith)

instance abbrev pub vote_key : Key VoteKey
vote_key = record { same = same_vote_key; same_iff = same_vote_key_iff }

pub record Replica (L V : Type 0) : Type 0 where
  pub id : ℕ
  pub n : ℕ
  pub f : ℕ
  pub view : ℕ
  pub high_qc : Qc
  pub locked_qc : Qc
  pub prepared_qc : Qc
  pub last_voted_view : ℕ
  pub proposed_in_view : ℕ
  pub known_blocks : Map ℕ Block
  pub committed : Map ℕ Bool
  pub committed_log : List ℕ
  pub pending_votes : Map VoteKey (Map ℕ (List ℕ))
  pub pending_new_views : Map ℕ (Map ℕ NewView)
  pub view_change_high_qc : Map ℕ Qc
  pub signer : Signer
  pub transport : Transport
  pub roster : List ℕ
  pub log : Option L
  pub vote_history : Option V

-- roster[i], which panics out of range.
at_index : List ℕ → ℕ → Outcome Error ℕ
at_index roster i = elim (get_elem? roster i) [ none ↦ panic | some id ↦ ok id ]

larger : ℕ → ℕ → ℕ
larger stored current = if ltb current stored then stored else current

module _ {L V : Type 0} where
  fresh : ℕ → ℕ → ℕ → Signer → Transport → List ℕ → Replica L V
  fresh id n f signer transport roster = record {
    id = id;
    n = n;
    f = f;
    view = 1;
    high_qc = genesis_qc;
    locked_qc = genesis_qc;
    prepared_qc = genesis_qc;
    last_voted_view = 0;
    proposed_in_view = 0;
    known_blocks = [];
    committed = (genesis_hash, true) ∷ [];
    committed_log = genesis_hash ∷ [];
    pending_votes = [];
    pending_new_views = [];
    view_change_high_qc = [];
    signer = signer;
    transport = transport;
    roster = roster;
    log = none;
    vote_history = none;
  }

  unfoldable pub new_replica : ℕ → ℕ → ℕ → Signer → Transport → List ℕ → Outcome Error (Replica L V)
  unfolding fresh
  new_replica id n f signer transport roster =
      if n == 0
      then err bad_replica_count
      else if leb n (3 * f)
      then err bad_fault_bound
      else if length roster == n
      then ok (fresh id n f signer transport roster)
      else err bad_roster

  unfoldable pub quorum : Replica L V → ℕ
  quorum r = 2 * r.f + 1

  -- roster[int(v-1) % N]: from v-1 = 2 ^ 63 on the int is negative, and Go's % takes its sign, so
  -- that the index is negative or 0.
  unfoldable pub leader : Replica L V → ℕ → Outcome Error ℕ
  unfolding at_index
  leader r v =
      let w = pred64 v in
      if ltb w (2 ^ 63)
      then at_index r.roster (w % r.n)
      else if (two64 - w) % r.n == 0
      then at_index r.roster 0
      else panic

  unfoldable pub set_log : L → Replica L V → Replica L V
  set_log l r = record r { log = some l }

  unfoldable pub set_vote_history : V → Replica L V → Replica L V
  set_vote_history vh r = record r { vote_history = some vh }

  module _ (x : Platform L V) where
    attach : V → ℕ × ℕ → Replica L V → Replica L V
    unfolding larger
    attach vh (last_voted, last_proposed) r = record r {
      last_voted_view = larger last_voted r.last_voted_view;
      proposed_in_view = larger last_proposed r.proposed_in_view;
      vote_history = some vh;
    }

    unfoldable pub restore_vote_history : V → Replica L V → Outcome Error (Replica L V)
    unfolding attach
    restore_vote_history vh r = elim (x.history.load vh) [
      | ok counters ↦ ok (attach vh counters r)
      | err e ↦ err e
      | panic ↦ panic
    ]
