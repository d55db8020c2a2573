-- ===== src/Bft/Quorum/Agreement.antt =====
-- Agreement within a view: the votes that replicas send over their lives (Events), and the QCs that
-- a replica accepts from them.
use gemot.Prelude.{
  ℕ, zero, suc, ◌+◌, ◌*◌, ◌≤◌, ◌<◌, ◌≡◌, ◌⊎◌, inl, inr, refl, ◌∙◌, sym, Bool, true, false, not,
  ◌&&◌, List, [], ◌∷◌, elem, All, arith, Bool-cases, subst,
}
use gemot.Prelude.Outcomes.{ok}
use gemot.Bft.Types.{Qc, Vote, Platform}
use gemot.Bft.Replica.{Replica}
use gemot.Bft.Justify.{verify_qc}
use gemot.Bft.Events.{Event, votes, run}
use gemot.Bft.Events.Guarded.{HistoryLaws, IsGuarded}
use gemot.Bft.Events.Once.{votes_rise}
use gemot.Bft.Events.Advance.{Rises, vote_views}
use gemot.Bft.Quorum.{count_below, common, verify_qc-overlap}

-- A vote for this block in this view is among those sent.
abbrev pub Casts : ℕ → ℕ → List Vote → Type 0
Casts v h [] = ⊥
Casts v h (w ∷ ws) = ((w.view ≡ v) × (w.block_hash ≡ h)) ⊎ Casts v h ws

Casts-above : (a b v h : ℕ) (ws : List Vote) → Rises a (vote_views ws) b → Casts v h ws → a < v
Casts-above a b v h [] r c = elim c [ ]
Casts-above a b v h (w ∷ ws) r (inl (e, _)) = omega (arith, r.0)
Casts-above a b v h (w ∷ ws) r (inr c) = omega (arith, r.0, Casts-above w.view b v h ws r.1 c)

-- Votes whose views rise name one block for each view.
Casts-unique :
    (a b v h h' : ℕ) (ws : List Vote)
    → Rises a (vote_views ws) b
    → Casts v h ws
    → Casts v h' ws
    → h ≡ h'
Casts-unique a b v h h' [] r c c' = elim c [ ]
Casts-unique a b v h h' (w ∷ ws) r (inl (e, f)) (inl (e', f')) = sym f ∙ f'
Casts-unique a b v h h' (w ∷ ws) r (inl (e, f)) (inr c) =
    absurd (omega (arith, Casts-above w.view b v h' ws r.1 c))
Casts-unique a b v h h' (w ∷ ws) r (inr c) (inl (e, f)) =
    absurd (omega (arith, Casts-above w.view b v h ws r.1 c))
Casts-unique a b v h h' (w ∷ ws) r (inr c) (inr c') = Casts-unique w.view b v h h' ws r.1 c c'

-- Where more numbers pass p than q excludes, one passes both.
find_both :
    (n : ℕ) (p q : ℕ → Bool)
    → count_below n (λ i. not (q i)) < count_below n p
    → (i : ℕ) × (i < n) × (p i ≡ true) × (q i ≡ true)
unfolding count_below
find_both zero p q h = absurd (omega arith)
find_both (suc n) p q h = elim (Bool-cases (p n && q n)) [
  | inl e ↦ (n, omega arith, ground arith, ground arith)
  | inr e ↦ let (i, l, a, b) = find_both n p q (ground arith) in (i, omega arith, a, b)
]

-- Every honest replica that a QC lists has sent the vote that the QC certifies. A signature scheme
-- that cannot be forged gives this of each QC whose aggregate verifies.
abbrev pub IsBacked : (ℕ → Bool) → (ℕ → List Vote) → Qc → Type 0
IsBacked honest sent qc =
    (i : ℕ) → elem i qc.signers ≡ true → honest i ≡ true → Casts qc.view qc.block_hash (sent i)

elem-and : (a b : Bool) → (a && b) ≡ true → (a ≡ true) × (b ≡ true)
elem-and true true h = (refl, refl)
elem-and true false h = cc
elem-and false b h = cc

-- Of at most 3f+1 replicas, at most f faulty, the honest ones over any lives with guarded counters:
-- two QCs for the same view that a replica accepts, and whose honest signers sent those votes, are
-- for the same block.
pub agreement :
    {L V : Type 0} (x : Platform L V)
    → HistoryLaws x.history
    → (honest : ℕ → Bool) (lives : ℕ → List Event) (starts : ℕ → Replica L V)
    → ((i : ℕ) → honest i ≡ true → IsGuarded x (starts i))
    → (r : Replica L V) (a b : Qc) → r.n ≤ 3 * r.f + 1
    → count_below r.n (λ i. not (honest i)) ≤ r.f
    → All (λ i. i < r.n) a.signers
    → All (λ i. i < r.n) b.signers
    → verify_qc r a ≡ ok tt
    → verify_qc r b ≡ ok tt
    → IsBacked honest (λ i. votes x (lives i) (starts i)) a
    → IsBacked honest (λ i. votes x (lives i) (starts i)) b
    → a.view ≡ b.view
    → a.block_hash ≡ b.block_hash
unfolding common
agreement x laws honest lives starts guarded r a b small few ia ib va vb ba bb same =
    let lt = verify_qc-overlap r a b small ia ib va vb in
    let (i, l, both, good) =
      find_both r.n (λ i. elem i a.signers && elem i b.signers) honest (omega arith) in
    let (ea, eb) = elem-and (elem i a.signers) (elem i b.signers) both in
    Casts-unique (starts i).last_voted_view (run x (lives i) (starts i)).last_voted_view a.view
      a.block_hash b.block_hash (votes x (lives i) (starts i))
      (votes_rise x laws (lives i) (starts i) (guarded i good)) (ba i ea good)
      (subst (λ v. Casts v b.block_hash (votes x (lives i) (starts i))) (sym same) (bb i eb good))
