-- ===== src/Deliberation/Resolution/Copied.antt =====
-- What the loops of resolveDelegations copy: over the votes, and over the delegators.
use gemot.Prelude.{
  ◌≡◌, ◌≢◌, refl, sym, ap, ◌↔◌, ◌⊎◌, inl, inr, true, false, not, ◌&&◌, some, List, [], ◌∷◌, ◌++◌,
  Map, String, str_eq, str_eq_refl, string_key, get, subst, arith, Bool-cases,
}
use text.Mathlib.TextEquality.{eq_iff}
use gemot.Memory.Records.{Vote}
use gemot.Deliberation.Voting.{has_voted, copied_vote, copies, expand, resolve}
use gemot.Deliberation.Resolution.Delegates.{In}

-- The agent whose votes count for a delegator.
abbrev pub effective : Map String String → String → String
effective graph a = resolve 5 graph ((a, true) ∷ []) a

In-append : {A : Type 0} (v : A) (xs ys : List A) → In v (xs ++ ys) ↔ (In v xs ⊎ In v ys)
In-append v [] ys = (λ h. inr h, λ h. elim h [ inl n ↦ absurd n | inr r ↦ r ])
In-append v (x ∷ xs) ys = (
  λ h. elim h [
    | inl e ↦ inl (inl e)
    | inr r ↦ elim ((In-append v xs ys).0 r) [ inl a ↦ inl (inr a) | inr b ↦ inr b ]
  ],
  λ h. elim h [
    | inl i ↦ elim i [ inl e ↦ inl e | inr a ↦ inr ((In-append v xs ys).1 (inl a)) ]
    | inr b ↦ inr ((In-append v xs ys).1 (inr b))
  ],
)

module _ (votes : List Vote) where
  -- What the loop over the votes copies for one delegator.
  pub record IsTaken (from effective : String) (vs : List Vote) (v : Vote) : Type 0 where
    pub source : Vote
    pub cast : In source vs
    pub by_delegate : source.agent_id ≡ effective
    pub open_to : has_voted from source.position_id votes ≡ false
    pub fields : v ≡ copied_vote from source

  copies-IsTaken :
      (from effective : String) (vs : List Vote) (v : Vote)
      → In v (copies votes from effective vs)
      → IsTaken from effective vs v
  unfolding copies
  copies-IsTaken from effective [] v h = absurd h
  copies-IsTaken from effective (w ∷ vs) v h =
      elim (Bool-cases (str_eq w.agent_id effective && not (has_voted from w.position_id votes))) [
        | inl taken ↦
            let h' : (copied_vote from w ≡ v) ⊎ In v (copies votes from effective vs) =
              rw (taken, copies) at h in
            elim h' [
              | inl e ↦ record {
                source = w;
                cast = inl refl;
                by_delegate = (eq_iff w.agent_id effective).0 (ground arith);
                open_to = ground arith;
                fields = sym e;
              }
              | inr r ↦
                  let t = copies-IsTaken from effective vs v r in
                  record {
                    source = t.source;
                    cast = inr t.cast;
                    by_delegate = t.by_delegate;
                    open_to = t.open_to;
                    fields = t.fields;
                  }
            ]
        | inr skipped ↦
            let h' : In v (copies votes from effective vs) = rw (skipped, copies) at h in
            let t = copies-IsTaken from effective vs v h' in
            record {
              source = t.source;
              cast = inr t.cast;
              by_delegate = t.by_delegate;
              open_to = t.open_to;
              fields = t.fields;
            }
      ]

  copies-has :
      (from : String) (vs : List Vote) (w : Vote)
      → In w vs
      → has_voted from w.position_id votes ≡ false
      → In (copied_vote from w) (copies votes from w.agent_id vs)
  unfolding copies
  copies-has from [] w h e = h
  copies-has from (u ∷ vs) w h e = elim h [
    | inl q ↦
        let test : (str_eq u.agent_id w.agent_id && not (has_voted from u.position_id votes))
            ≡ true =
          rw q (ground (arith, str_eq_refl w.agent_id)) in
        rw test (inl (ap (copied_vote from) q))
    | inr r ↦
        let rest = copies-has from vs w r e in
        elim (Bool-cases
          (str_eq u.agent_id w.agent_id && not (has_voted from u.position_id votes))) [
            | inl taken ↦ rw (taken, copies) (inr rest)
            | inr skipped ↦ rw (skipped, copies) rest
          ]
  ]

  module _ (graph : Map String String) where
    pub record IsFor (delegators : Map String String) (v : Vote) : Type 0 where
      pub from : String
      pub to' : String
      pub delegated : get from delegators ≡ some to'
      pub away : effective graph from ≢ from
      pub taken : IsTaken from (effective graph from) votes v

    later-IsFor :
        (k t : String) (delegators : Map String String) (v : Vote)
        → IsFor delegators v
        → IsFor ((k, t) ∷ delegators) v
    later-IsFor k t delegators v f = elim (Bool-cases (str_eq k f.from)) [
      | inl e ↦ record {
        from = f.from;
        to' = t;
        delegated = ground arith;
        away = f.away;
        taken = f.taken;
      }
      | inr e ↦ record {
        from = f.from;
        to' = f.to';
        delegated = rw e f.delegated;
        away = f.away;
        taken = f.taken;
      }
    ]

    pub expand-IsFor :
        (delegators : Map String String) (v : Vote)
        → In v (expand votes graph delegators)
        → IsFor delegators v
    unfolding expand
    expand-IsFor [] v h = absurd h
    expand-IsFor ((k, t) ∷ delegators) v h = elim (Bool-cases (str_eq (effective graph k) k)) [
      | inl own ↦
          let h' : In v (expand votes graph delegators) = rw (own, expand) at h in
          later-IsFor k t delegators v (expand-IsFor delegators v h')
      | inr other ↦
          let h' : In v
              (copies votes k (effective graph k) votes ++ expand votes graph delegators) =
            rw (other, expand) at h in
          elim ((In-append v (copies votes k (effective graph k) votes)
              (expand votes graph delegators)).0
            h') [
              | inl c ↦ record {
                from = k;
                to' = t;
                delegated = ground (arith, str_eq_refl k);
                away = λ q. ground (arith, eq_iff (effective graph k) k);
                taken = copies-IsTaken k (effective graph k) votes v c;
              }
              | inr r ↦ later-IsFor k t delegators v (expand-IsFor delegators v r)
            ]
    ]

    expand-own :
        (from t : String) (delegators : Map String String) (w : Vote)
        → effective graph from ≢ from
        → In w votes
        → effective graph from ≡ w.agent_id
        → has_voted from w.position_id votes ≡ false
        → In (copied_vote from w) (expand votes graph ((from, t) ∷ delegators))
    unfolding expand
    expand-own from t delegators w away i q e =
        let other : str_eq (effective graph from) from ≡ false =
          ground (arith, eq_iff (effective graph from) from, away) in
        rw (other, expand, q)
          ((In-append (copied_vote from w) (copies votes from w.agent_id votes)
              (expand votes graph delegators)).1
            (inl (copies-has from votes w i e)))

    pub expand-has :
        (from to' : String) (delegators : Map String String) (w : Vote)
        → get from delegators ≡ some to'
        → effective graph from ≢ from
        → In w votes
        → effective graph from ≡ w.agent_id
        → has_voted from w.position_id votes ≡ false
        → In (copied_vote from w) (expand votes graph delegators)
    unfolding expand
    expand-has from to' [] w d away i q e = ground arith
    expand-has from to' ((k, t) ∷ delegators) w d away i q e = elim (Bool-cases (str_eq k from)) [
      | inl same ↦
          subst (λ k. In (copied_vote from w) (expand votes graph ((k, t) ∷ delegators)))
            (sym ((eq_iff k from).0 same)) (expand-own from t delegators w away i q e)
      | inr ne ↦
          let rest = expand-has from to' delegators w (rw ne at d) away i q e in
          elim (Bool-cases (str_eq (effective graph k) k)) [
            | inl own ↦ rw (own, expand) rest
            | inr other ↦
                rw (other, expand)
                  ((In-append (copied_vote from w) (copies votes k (effective graph k) votes)
                      (expand votes graph delegators)).1
                    (inr rest))
          ]
    ]
