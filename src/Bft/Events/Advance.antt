-- ===== src/Bft/Events/Advance.antt =====
-- What one event does to the counters of a replica, and to the views of what it sends.
use gemot.Prelude.{ℕ, ◌≤◌, ◌<◌, ◌≡◌, refl, inl, inr, some, List, [], ◌∷◌, ◌++◌, map, arith}
use gemot.Prelude.Outcomes.{Outcome, ok, err, panic, Outcome-cases}
use gemot.Bft.Types.{Qc, Proposal, Vote, Platform, Error, Block}
use gemot.Bft.Replica.{Replica}
use gemot.Bft.Proposals.{
  handle_proposal, check_proposal, accept_proposal, propose, check_propose, emit, vote_for,
}
use gemot.Bft.Events.{restart, restarted, cast, handed_out}
use gemot.Bft.Events.Guarded.{
  HistoryLaws, IsGuarded, Saved, Still, check_proposal-lt, accept_proposal-Saved, emit-Saved,
}
use gemot.Bft.Events.Restart.{restart-Stored}

-- The numbers rise strictly, all above a and the last at most b.
abbrev pub Rises : ℕ → List ℕ → ℕ → Type 0
Rises a [] b = a ≤ b
Rises a (v ∷ vs) b = (a < v) × Rises v vs b

pub Rises-append : (a b c : ℕ) (xs ys : List ℕ) → Rises a xs b → Rises b ys c → Rises a (xs ++ ys) c
Rises-append a b c [] ys h k = Rises-weaken a b c ys h k
  where
    Rises-weaken : (a b c : ℕ) (ys : List ℕ) → a ≤ b → Rises b ys c → Rises a ys c
    Rises-weaken a b c [] h k = omega arith
    Rises-weaken a b c (y ∷ ys) h k = (omega arith, k.1)
Rises-append a b c (x ∷ xs) ys h k = (h.0, Rises-append x b c xs ys h.1 k)

abbrev pub vote_views : List Vote → List ℕ
vote_views = map λ v. v.view

abbrev pub proposal_views : List Proposal → List ℕ
proposal_views = map λ p. p.view

-- One event: the guard is kept, and what is sent lies between the counters before and after.
pub record Advance {L V : Type 0} (x : Platform L V) (r r' : Replica L V) (vs ps : List ℕ)
    : Type 0 where
  pub guarded : IsGuarded x r'
  pub voted : Rises r.last_voted_view vs r'.last_voted_view
  pub proposed : Rises r.proposed_in_view ps r'.proposed_in_view

pub Still-refl : {L V : Type 0} (r : Replica L V) → Still r r
Still-refl r = record { vote_history = refl; last_voted_view = refl; proposed_in_view = refl }

module _ {L V : Type 0} (x : Platform L V) where
  check_propose-lt :
      (r : Replica L V) (parent : ℕ) (payload : List ℕ) (justify : Qc) {b : Block}
      → check_propose x r parent payload justify ≡ ok b
      → r.proposed_in_view < r.view
  unfolding check_propose
  check_propose-lt r parent payload justify h = ground arith

  emit-view : (r : Replica L V) (b : Block) (p : Proposal) → (emit x r b).0 ≡ ok p → p.view ≡ r.view
  unfolding emit
  emit-view r b p h = ground arith

  pub Still-Advance : (r r' : Replica L V) → IsGuarded x r → Still r r' → Advance x r r' [] []
  Still-Advance r r' g s = record {
    guarded = record {
      store = g.store;
      attached = ground arith;
      covers = (g.covers.0, g.covers.1, omega arith, omega arith);
    };
    voted = ground arith;
    proposed = ground arith;
  }

module _ {L V : Type 0} (x : Platform L V) (laws : HistoryLaws x.history) where
  saved_vote-IsGuarded :
      (p : Proposal) (r r' : Replica L V) (s' : V) (g : IsGuarded x r)
      → x.history.save_vote p.view g.store ≡ ok s'
      → r'.vote_history ≡ some s'
      → r'.last_voted_view ≡ p.view
      → r'.proposed_in_view ≡ r.proposed_in_view
      → IsGuarded x r'
  saved_vote-IsGuarded p r r' s' g e a b c =
      let k =
        laws.save_vote_lem p.view r.last_voted_view r.proposed_in_view g.store s' e g.covers in
      record { store = s'; attached = a; covers = (k.0, k.1, omega arith, omega arith) }

  saved_proposal-IsGuarded :
      (v : ℕ) (r r' : Replica L V) (s' : V) (g : IsGuarded x r)
      → x.history.save_proposal v g.store ≡ ok s'
      → r'.vote_history ≡ some s'
      → r'.last_voted_view ≡ r.last_voted_view
      → r'.proposed_in_view ≡ v
      → IsGuarded x r'
  saved_proposal-IsGuarded v r r' s' g e a b c =
      let k = laws.save_proposal_lem v r.last_voted_view r.proposed_in_view g.store s' e g.covers in
      record { store = s'; attached = a; covers = (k.0, k.1, omega arith, omega arith) }

  accepted-Advance :
      (p : Proposal) (r : Replica L V) (o : Outcome Error (Unit {0}) × Replica L V)
      (g : IsGuarded x r)
      → r.last_voted_view < p.view
      → Saved (x.history.save_vote p.view g.store) g.store p.view r.proposed_in_view r o
      → Advance x r o.1 (vote_views (cast x p r o.0)) []
  unfolding cast vote_for
  accepted-Advance p r (ok u, r') g lt (inl (s', e, a, b, c)) = record {
    guarded = saved_vote-IsGuarded p r r' s' g e a b c;
    voted = (lt, omega arith);
    proposed = omega arith;
  }
  accepted-Advance p r (ok u, r') g lt (inr (a, b, c, d)) = absurd (d u refl)
  accepted-Advance p r (err f, r') g lt (inl (s', e, a, b, c)) = record {
    guarded = saved_vote-IsGuarded p r r' s' g e a b c;
    voted = omega arith;
    proposed = omega arith;
  }
  accepted-Advance p r (err f, r') g lt (inr (a, b, c, d)) =
      Still-Advance x r r' g
        (record { vote_history = ground arith; last_voted_view = b; proposed_in_view = c })
  accepted-Advance p r (panic, r') g lt (inl (s', e, a, b, c)) = record {
    guarded = saved_vote-IsGuarded p r r' s' g e a b c;
    voted = omega arith;
    proposed = omega arith;
  }
  accepted-Advance p r (panic, r') g lt (inr (a, b, c, d)) =
      Still-Advance x r r' g
        (record { vote_history = ground arith; last_voted_view = b; proposed_in_view = c })

  pub handle_proposal-Advance :
      (p : Proposal) (r : Replica L V)
      → IsGuarded x r
      → Advance x r (handle_proposal x p r).1 (vote_views (cast x p r (handle_proposal x p r).0)) []
  unfolding handle_proposal cast
  handle_proposal-Advance p r g = elim (Outcome-cases (check_proposal x r p)) [
    | inl (expected, e) ↦
        rw (e, handle_proposal)
          (accepted-Advance p r (accept_proposal x p expected r) g (check_proposal-lt x r p e)
            (accept_proposal-Saved x p expected r g.store g.attached))
    | inr (inl (f, e)) ↦ rw (e, handle_proposal) (Still-Advance x r r g (Still-refl r))
    | inr (inr e) ↦ rw (e, handle_proposal) (Still-Advance x r r g (Still-refl r))
  ]

  -- A proposal that Propose hands out is for the replica's view.
  emitted-Advance :
      (r : Replica L V) (o : Outcome Error Proposal × Replica L V) (g : IsGuarded x r)
      → r.proposed_in_view < r.view
      → ((p : Proposal) → o.0 ≡ ok p → p.view ≡ r.view)
      → Saved (x.history.save_proposal r.view g.store) g.store r.last_voted_view r.view r o
      → Advance x r o.1 [] (proposal_views (handed_out o.0))
  unfolding handed_out
  emitted-Advance r (ok p, r') g lt pv (inl (s', e, a, b, c)) = record {
    guarded = saved_proposal-IsGuarded r.view r r' s' g e a b c;
    voted = omega arith;
    proposed = omega (arith, pv p refl);
  }
  emitted-Advance r (ok p, r') g lt pv (inr (a, b, c, d)) = absurd (d p refl)
  emitted-Advance r (err f, r') g lt pv (inl (s', e, a, b, c)) = record {
    guarded = saved_proposal-IsGuarded r.view r r' s' g e a b c;
    voted = omega arith;
    proposed = omega arith;
  }
  emitted-Advance r (err f, r') g lt pv (inr (a, b, c, d)) =
      Still-Advance x r r' g
        (record { vote_history = ground arith; last_voted_view = b; proposed_in_view = c })
  emitted-Advance r (panic, r') g lt pv (inl (s', e, a, b, c)) = record {
    guarded = saved_proposal-IsGuarded r.view r r' s' g e a b c;
    voted = omega arith;
    proposed = omega arith;
  }
  emitted-Advance r (panic, r') g lt pv (inr (a, b, c, d)) =
      Still-Advance x r r' g
        (record { vote_history = ground arith; last_voted_view = b; proposed_in_view = c })

  pub propose-Advance :
      (parent : ℕ) (payload : List ℕ) (justify : Qc) (r : Replica L V)
      → IsGuarded x r
      → Advance x r
          (propose x parent payload justify r).1
          []
          (proposal_views (handed_out (propose x parent payload justify r).0))
  unfolding propose handed_out
  propose-Advance parent payload justify r g =
      elim (Outcome-cases (check_propose x r parent payload justify)) [
        | inl (b, e) ↦
            rw (e, propose)
              (emitted-Advance r (emit x r b) g (check_propose-lt x r parent payload justify e)
                (emit-view x r b) (emit-Saved x b r g.store g.attached))
        | inr (inl (f, e)) ↦ rw (e, propose) (Still-Advance x r r g (Still-refl r))
        | inr (inr e) ↦ rw (e, propose) (Still-Advance x r r g (Still-refl r))
      ]

  pub restarted-Advance :
      (r : Replica L V) (o : Outcome Error (Replica L V))
      → IsGuarded x r
      → restart x r ≡ o
      → Advance x r (restarted x r o) [] []
  unfolding restarted
  restarted-Advance r (ok r') g e =
      let (c, l, a, b, d) = restart-Stored x r r' g.store g.attached e in
      let (c', l', p, q) = g.covers in
      let same : c ≡ c' = ground arith in
      record {
        guarded = record {
          store = g.store;
          attached = a;
          covers = (c, l, omega arith, omega arith);
        };
        voted = ground arith;
        proposed = ground arith;
      }
  restarted-Advance r (err f) g e = Still-Advance x r r g (Still-refl r)
  restarted-Advance r panic g e = Still-Advance x r r g (Still-refl r)
