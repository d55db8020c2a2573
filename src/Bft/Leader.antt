-- ===== src/Bft/Leader.antt =====
-- The leader rotation of state.go, and what it does to a vote for view 0.
use gemot.Prelude.{
  ℕ, zero, suc, ◌+◌, ◌-◌, ◌%◌, ◌^◌, ◌≤◌, ◌<◌, ◌≡◌, refl, some, List, [], ◌∷◌, length, get_elem?,
  arith, ap, subst, sym,
}
use gemot.Prelude.Outcomes.{ok, panic}
use gemot.Bft.Types.{Vote, Platform, two64, pred64}
use gemot.Bft.Replica.{Replica, leader}
use gemot.Bft.Votes.{handle_vote}
use native.Mathlib.Nat.{mod-lt, add-mod_right, mod-eq_of_lt}

get_elem?-lt :
    {A : Type 0} (xs : List A) (i : ℕ) → i < length xs → (a : A) × (get_elem? xs i ≡ some a)
get_elem?-lt [] i h = absurd (omega arith)
get_elem?-lt (x ∷ xs) zero h = (x, refl)
get_elem?-lt (x ∷ xs) (suc i) h = get_elem?-lt xs i (omega arith)

regroup : (v n : ℕ) → 0 < v → v + n - 1 ≡ v - 1 + n
regroup v n h = omega arith

module _ {L V : Type 0} (r : Replica L V) (full : length r.roster ≡ r.n)
    (some_replica : 0 < r.n) where
  index-lt : (w : ℕ) → w % r.n < length r.roster
  index-lt w = omega (arith, mod-lt w some_replica)

  leader_at :
      (v id : ℕ)
      → 0 < v
      → v ≤ 2 ^ 63
      → get_elem? r.roster ((v - 1) % r.n) ≡ some id
      → leader r v ≡ ok id
  unfolding leader
  leader_at v id pos small e = let p : pred64 v ≡ v - 1 = omega arith in ground (arith, p, e)

  -- For views from 1 to 2 ^ 63, the leader of a full roster is the entry at (view-1) mod N, and N
  -- views later it is the same one.
  pub leader_rotates :
      (v : ℕ)
      → 0 < v
      → v + r.n ≤ 2 ^ 63
      → (id : ℕ) × (get_elem? r.roster ((v - 1) % r.n) ≡ some id)
        × (leader r v ≡ ok id)
        × (leader r (v + r.n) ≡ ok id)
  leader_rotates v pos small =
      let (id, e) = get_elem?-lt r.roster ((v - 1) % r.n) (index-lt (v - 1)) in
      let shift : (v + r.n - 1) % r.n ≡ (v - 1) % r.n =
        omega (arith, add-mod_right (v - 1) r.n, ap (λ (t : ℕ). t % r.n) (regroup v r.n pos)) in
      (
        id,
        e,
        leader_at v id pos (omega arith) e,
        leader_at (v + r.n) id (omega arith) small
            (subst (λ i. get_elem? r.roster i ≡ some id) (sym shift) e),
      )

one_mod : (n : ℕ) → 2 ≤ n → 1 % n ≡ 1
one_mod n h = mod-eq_of_lt h

wrapped_view : (v : ℕ) → v ≡ 0 → two64 - pred64 v ≡ 1
wrapped_view v e = omega arith

leader_of_0 :
    {L V : Type 0} (r : Replica L V) (v : ℕ)
    → v ≡ 0
    → (two64 - pred64 v) % r.n ≡ 1
    → leader r v ≡ panic
unfolding leader
leader_of_0 r v e p = let w : pred64 v ≡ two64 - 1 = omega arith in ground (arith, w, p)

-- A vote for view 0 makes every replica of two or more panic, whoever sent it and whatever its
-- signature: the leader is looked up before the signature is verified.
pub vote_for_view_0_panics :
    {L V : Type 0} (x : Platform L V) (r : Replica L V) (v : Vote)
    → 2 ≤ r.n
    → v.view ≡ 0
    → handle_vote x v r ≡ (panic, r)
unfolding handle_vote
vote_for_view_0_panics x r v many e =
    let p : (two64 - pred64 v.view) % r.n ≡ 1 =
      omega (arith, one_mod r.n many, ap (λ (t : ℕ). t % r.n) (wrapped_view v.view e)) in
    let q : leader r v.view ≡ panic = leader_of_0 r v.view e p in rw (q, handle_vote)
