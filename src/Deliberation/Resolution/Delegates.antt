-- ===== src/Deliberation/Resolution/Delegates.antt =====
-- Which delegations count in resolveDelegations, and where following them leads.
use gemot.Prelude.{
  ℕ, zero, suc, ◌≡◌, ◌⊎◌, inl, inr, refl, ◌∙◌, subst, Bool, true, false, ◌&&◌, none, some, List, [],
  ◌∷◌, ◌++◌, Map, String, str_eq, string_key, get, put, get-put, All, arith, Option-cases,
  Bool-cases, if◌then◌else◌,
}
use text.Mathlib.TextEquality.{eq_iff}
use gemot.Memory.Records.{Delegation}
use gemot.Deliberation.Voting.{resolve, delegate_of}

abbrev pub In : {A : Type 0} → A → List A → Type 0
In v [] = ⊥
In v (x ∷ xs) = (x ≡ v) ⊎ In v xs

-- The agent's last active delegation is to b.
pub data Delegates (ds : List Delegation) (a b : String) : Type 0 where
  last :
      (before : List Delegation) (d : Delegation) (after : List Delegation)
      → ds ≡ before ++ (d ∷ after)
      → d.active ≡ true
      → d.from_agent ≡ a
      → d.to_agent ≡ b
      → All (λ e. (e.active && str_eq e.from_agent a) ≡ false) after
      → Delegates ds a b

-- From a one comes to c in at most n steps: to the end of the delegations, or until the next agent
-- has been seen or the steps are used up.
pub data Leads (ds : List Delegation) : ℕ → List String → String → String → Type 0 where
  tired : {seen : List String} {a c : String} → a ≡ c → Leads ds zero seen a c
  ends :
      {n : ℕ} {seen : List String} {a c : String}
      → ((b : String) → ¬ Delegates ds a b)
      → a ≡ c
      → Leads ds (suc n) seen a c
  circle :
      {n : ℕ} {seen : List String} {a c : String} (b : String)
      → Delegates ds a b
      → In b seen
      → a ≡ c
      → Leads ds (suc n) seen a c
  on :
      {n : ℕ} {seen : List String} {a c : String} (b : String)
      → Delegates ds a b
      → ¬ In b seen
      → Leads ds n (b ∷ seen) b c
      → Leads ds (suc n) seen a c

earlier :
    {a b : String} (d : Delegation) (ds : List Delegation)
    → Delegates ds a b
    → Delegates (d ∷ ds) a b
earlier d ds (last before e after q active from to' rest) =
    last (d ∷ before) e after (rw q refl) active from to' rest

-- What the graph holds: the last active delegation, or what it held before.
graph-cases :
    (graph : Map String String) (ds : List Delegation) (a : String)
    → ((b : String) × (get a (delegate_of graph ds) ≡ some b) × Delegates ds a b)
      ⊎ ((get a (delegate_of graph ds) ≡ get a graph)
          × All (λ e. (e.active && str_eq e.from_agent a) ≡ false) ds)
unfolding delegate_of
graph-cases graph [] a = inr (refl, tt)
graph-cases graph (d ∷ ds) a =
    elim (graph-cases (if d.active then put d.from_agent d.to_agent graph else graph) ds a) [
      | inl (b, e, del) ↦ inl (b, e, earlier d ds del)
      | inr (e, none_later) ↦ elim (Bool-cases (d.active && str_eq d.from_agent a)) [
        | inl own ↦ inl (
          d.to_agent,
          ground (arith, get-put d.from_agent a d.to_agent graph),
          last [] d ds refl (ground arith) ((eq_iff d.from_agent a).0 (ground arith)) refl
              none_later,
        )
        | inr other ↦
            inr (ground (arith, get-put d.from_agent a d.to_agent graph), (other, none_later))
      ]
    ]

All-there :
    {A : Type 0} (P : A → Type 0) (xs : List A) (y : A) (ys : List A) → All P (xs ++ (y ∷ ys)) → P y
All-there P [] y ys h = h.0
All-there P (x ∷ xs) y ys h = All-there P xs y ys h.1

none-Delegates :
    {a b : String} (ds : List Delegation)
    → All (λ e. (e.active && str_eq e.from_agent a) ≡ false) ds
    → ¬ Delegates ds a b
none-Delegates {a} ds inactive (last before d after q active from to' rest) =
    let Silent : Delegation → Type 0 = λ e. (e.active && str_eq e.from_agent a) ≡ false in
    let here = All-there Silent before d after (subst (All Silent) q inactive) in
    ground (arith, eq_iff d.from_agent a)

delegate_of-append :
    (graph : Map String String) (xs ys : List Delegation)
    → delegate_of graph (xs ++ ys) ≡ delegate_of (delegate_of graph xs) ys
unfolding delegate_of
delegate_of-append graph [] ys = refl
delegate_of-append graph (x ∷ xs) ys =
    delegate_of-append (if x.active then put x.from_agent x.to_agent graph else graph) xs ys

delegate_of-others :
    (graph : Map String String) (ds : List Delegation) (a : String)
    → All (λ e. (e.active && str_eq e.from_agent a) ≡ false) ds
    → get a (delegate_of graph ds) ≡ get a graph
unfolding delegate_of
delegate_of-others graph [] a h = refl
delegate_of-others graph (d ∷ ds) a h =
    delegate_of-others (if d.active then put d.from_agent d.to_agent graph else graph) ds a h.1
    ∙ ground (arith, get-put d.from_agent a d.to_agent graph, h.0)

pub Delegates-get :
    {a b : String} (ds : List Delegation) → Delegates ds a b → get a (delegate_of [] ds) ≡ some b
unfolding delegate_of
Delegates-get {a} {b} ds (last before d after q active from to' rest) =
    rw (q, delegate_of-append [] before (d ∷ after))
      (delegate_of-others
          (if d.active
            then put d.from_agent d.to_agent (delegate_of [] before)
            else delegate_of [] before)
          after a rest
        ∙ ground (
          arith,
          eq_iff d.from_agent a,
          get-put d.from_agent a d.to_agent (delegate_of [] before),
        ))

pub get-Delegates :
    {a b : String} (ds : List Delegation) → get a (delegate_of [] ds) ≡ some b → Delegates ds a b
get-Delegates {a} {b} ds e = elim (graph-cases [] ds a) [
  | inl (b', e', del) ↦ let same : b' ≡ b = cc in subst (Delegates ds a) same del
  | inr (e', inactive) ↦ absurd (ground arith)
]

-- The set of the agents seen holds those on the list.
abbrev Seen : List String → Map String Bool → Type 0
Seen l seen =
    (a : String) → (In a l × (get a seen ≡ some true)) ⊎ ((¬ In a l) × (get a seen ≡ none))

Seen-put :
    (b : String) (l : List String) (seen : Map String Bool)
    → Seen l seen
    → Seen (b ∷ l) (put b true seen)
Seen-put b l seen h a = elim (Bool-cases (str_eq b a)) [
  | inl e ↦ inl (inl ((eq_iff b a).0 e), ground (arith, get-put b a true seen))
  | inr ne ↦ elim (h a) [
    | inl (i, e) ↦ inl (inr i, ground (arith, get-put b a true seen))
    | inr (out, e) ↦ inr (
      λ i. elim i [ inl q ↦ ground (arith, eq_iff b a) | inr i' ↦ out i' ],
      ground (arith, get-put b a true seen),
    )
  ]
]

Seen-one : (a : String) → Seen (a ∷ []) ((a, true) ∷ [])
Seen-one a b = elim (Bool-cases (str_eq a b)) [
  | inl e ↦ inl (inl ((eq_iff a b).0 e), ground arith)
  | inr ne ↦ inr (λ i. elim i [ inl q ↦ ground (arith, eq_iff a b) | inr out ↦ out ], ground arith)
]

resolve-Leads :
    (ds : List Delegation) (n : ℕ) (l : List String) (seen : Map String Bool) (a : String)
    → Seen l seen
    → Leads ds n l a (resolve n (delegate_of [] ds) seen a)
unfolding resolve
resolve-Leads ds zero l seen a h = tired refl
resolve-Leads ds (suc n) l seen a h = elim (Option-cases (get a (delegate_of [] ds))) [
  | inl out ↦ rw (out, resolve) (ends (λ b del. let e = Delegates-get ds del in cc) refl)
  | inr (b, found) ↦ elim (h b) [
    | inl (i, e) ↦ rw (found, resolve, e) (circle b (get-Delegates ds found) i refl)
    | inr (out, e) ↦
        rw (found, resolve, e)
          (on b (get-Delegates ds found) out
            (resolve-Leads ds n (b ∷ l) (put b true seen) b (Seen-put b l seen h)))
  ]
]

Leads-resolve :
    (ds : List Delegation) {n : ℕ} {l : List String} {a c : String} (seen : Map String Bool)
    → Seen l seen
    → Leads ds n l a c
    → resolve n (delegate_of [] ds) seen a ≡ c
unfolding resolve
Leads-resolve ds seen h (tired q) = q
Leads-resolve ds {a = a} seen h (ends out q) = elim (Option-cases (get a (delegate_of [] ds))) [
  | inl e ↦ rw (e, resolve) q
  | inr (b, e) ↦ absurd (out b (get-Delegates ds e))
]
Leads-resolve ds seen h (circle b del i q) =
    let e = Delegates-get ds del in
    elim (h b) [ inl (_, s) ↦ rw (e, resolve, s) q | inr (out, _) ↦ absurd (out i) ]
Leads-resolve ds {l = l} seen h (on b del out r) =
    let e = Delegates-get ds del in
    elim (h b) [
      | inl (i, _) ↦ absurd (out i)
      | inr (_, s) ↦ rw (e, resolve, s) (Leads-resolve ds (put b true seen) (Seen-put b l seen h) r)
    ]

-- The walk of resolve, for a delegator, is the one that Leads describes.
pub effective-Leads :
    (ds : List Delegation) (a : String)
    → Leads ds 5 (a ∷ []) a (resolve 5 (delegate_of [] ds) ((a, true) ∷ []) a)
effective-Leads ds a = resolve-Leads ds 5 (a ∷ []) ((a, true) ∷ []) a (Seen-one a)

pub Leads-effective :
    (ds : List Delegation) (a c : String)
    → Leads ds 5 (a ∷ []) a c
    → resolve 5 (delegate_of [] ds) ((a, true) ∷ []) a ≡ c
Leads-effective ds a c = Leads-resolve ds ((a, true) ∷ []) (Seen-one a)
