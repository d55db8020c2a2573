-- ===== src/Bft/Chain/Ancestry.antt =====
-- When the walk of extends ends, and that it decides whether a block is an ancestor of another.
use gemot.Prelude.{
  ℕ, zero, suc, ◌+◌, ◌≤◌, ◌<◌, ◌≡◌, ◌≢◌, inl, inr, refl, Bool, true, false, none, some, [], ◌∷◌,
  Map, nat_key, get, length, leb, ◌==◌, if◌then◌else◌, arith, Bool-cases, Option-cases,
}
use gemot.Bft.Types.{Block, genesis_hash}
use gemot.Bft.Chain.{walk, finished, extends}

-- Parent pointers lead from the descendant down to the ancestor, through known blocks and above the
-- zero hash.
pub data Ancestor (known : Map ℕ Block) (a : ℕ) : ℕ → Type 0 where
  itself : {d : ℕ} → d ≢ genesis_hash → d ≡ a → Ancestor known a d
  above :
      {d : ℕ} (b : Block)
      → d ≢ genesis_hash
      → get d known ≡ some b
      → Ancestor known a b.parent
      → Ancestor known a d

-- A measure that falls from each known block to its parent. It exists where hashes form no cycle.
abbrev pub Falls : (ℕ → ℕ) → Map ℕ Block → Type 0
Falls depth [] = Unit
Falls depth ((k, b) ∷ known) = (depth b.parent < depth k) × Falls depth known

-- The known blocks that lie no deeper than d.
rank : (ℕ → ℕ) → ℕ → Map ℕ Block → ℕ
rank depth d [] = 0
rank depth d ((k, b) ∷ known) = (if leb (depth k) d then 1 else 0) + rank depth d known

rank_mono :
    (depth : ℕ → ℕ) (c d : ℕ) (known : Map ℕ Block)
    → c ≤ d
    → rank depth c known ≤ rank depth d known
unfolding rank
rank_mono depth c d [] h = omega arith
rank_mono depth c d ((k, b) ∷ known) h = ground (arith, rank_mono depth c d known)

rank-le-length : (depth : ℕ → ℕ) (d : ℕ) (known : Map ℕ Block) → rank depth d known ≤ length known
unfolding rank
rank-le-length depth d [] = omega arith
rank-le-length depth d ((k, b) ∷ known) = ground (arith, rank-le-length depth d known)

-- Below a known block there is one known block less.
rank-lt :
    (depth : ℕ → ℕ) (c cur : ℕ) (b : Block) (known : Map ℕ Block)
    → c < depth cur
    → get cur known ≡ some b
    → rank depth c known < rank depth (depth cur) known
unfolding rank
rank-lt depth c cur b [] h e = ground arith
rank-lt depth c cur b ((k, b') ∷ known) h e =
    ground (arith, rank_mono depth c (depth cur) known, rank-lt depth c cur b known)

parent-lt :
    (depth : ℕ → ℕ) (cur : ℕ) (b : Block) (known : Map ℕ Block)
    → Falls depth known
    → get cur known ≡ some b
    → depth b.parent < depth cur
parent-lt depth cur b [] h e = ground arith
parent-lt depth cur b ((k, c) ∷ known) h e = ground (arith, parent-lt depth cur b known h.1)

module _ (known : Map ℕ Block) (a : ℕ) where
  -- The rounds that the walk makes before it ends, at most n.
  steps : ℕ → ℕ → ℕ
  steps zero d = 0
  steps (suc n) d =
      if d == genesis_hash
      then 0
      else if d == a
      then 0
      else elim (get d known) [ none ↦ 0 | some b ↦ suc (steps n b.parent) ]

  -- A walk that ends makes the same rounds with more fuel.
  steps_stable : (m n d : ℕ) (o : Bool) → walk m known a d ≡ some o → m ≤ n → steps n d ≡ steps m d
  unfolding walk steps
  steps_stable zero n d o e h = cc
  steps_stable (suc m) zero d o e h = absurd (omega arith)
  steps_stable (suc m) (suc n) d o e h = elim (Option-cases (get d known)) [
    | inl out ↦ rw (out, steps) (ground arith)
    | inr (b, found) ↦ ground (arith, steps_stable m n b.parent o)
  ]

  steps-lt :
      (m n d : ℕ) (b : Block) (o : Bool)
      → d ≢ genesis_hash
      → d ≢ a
      → get d known ≡ some b
      → walk m known a b.parent ≡ some o
      → suc m ≤ n
      → steps n b.parent < steps n d
  unfolding steps
  steps-lt m zero d b o nz ne found e h = absurd (omega arith)
  steps-lt m (suc n) d b o nz ne found e h =
      let more = steps_stable m (suc n) b.parent o e (omega arith) in
      let less = steps_stable m n b.parent o e (omega arith) in
      let unfolded : steps (suc n) d ≡ suc (steps n b.parent) = ground arith in
      omega (arith, more, less, unfolded)

  walk_enough :
      (n fuel m d : ℕ) (o : Bool)
      → m ≤ n
      → walk m known a d ≡ some o
      → rank (steps n) (steps n d) known < fuel
      → walk fuel known a d ≡ some o
  unfolding walk
  walk_enough n zero m d o h e lt = absurd (omega arith)
  walk_enough n (suc fuel) zero d o h e lt = cc
  walk_enough n (suc fuel) (suc m) d o h e lt = elim (Bool-cases (d == genesis_hash)) [
    | inl z ↦ ground arith
    | inr nz ↦ elim (Bool-cases (d == a)) [
      | inl hit ↦ ground arith
      | inr miss ↦ elim (Option-cases (get d known)) [
        | inl out ↦ ground arith
        | inr (b, found) ↦
            let e' : walk m known a b.parent ≡ some o = ground arith in
            let falls : steps n b.parent < steps n d =
              steps-lt m n d b o (λ q. ground arith) (λ q. ground arith) found e' h in
            rw (nz, miss, found)
              (walk_enough n fuel m b.parent o (omega arith) e'
                (omega (arith, rank-lt (steps n) (steps n b.parent) d b known falls found)))
      ]
    ]
  ]

  -- The fuel of extends is enough for every walk that ends.
  fuel_enough :
      (n d : ℕ) (o : Bool)
      → walk n known a d ≡ some o
      → walk (suc (length known)) known a d ≡ some o
  fuel_enough n d o e =
      walk_enough n (suc (length known)) n d o (omega arith) e
        (omega (arith, rank-le-length (steps n) (steps n d) known))

  walk-Ancestor : (n d : ℕ) → walk n known a d ≡ some true → Ancestor known a d
  unfolding walk
  walk-Ancestor zero d e = cc
  walk-Ancestor (suc n) d e = elim (Bool-cases (d == genesis_hash)) [
    | inl z ↦ ground arith
    | inr nz ↦ elim (Bool-cases (d == a)) [
      | inl hit ↦ itself (λ q. ground arith) (ground arith)
      | inr miss ↦ elim (Option-cases (get d known)) [
        | inl out ↦ ground arith
        | inr (b, found) ↦
            above b (λ q. ground arith) found (walk-Ancestor n b.parent (ground arith))
      ]
    ]
  ]

  Ancestor-walk : {d : ℕ} → Ancestor known a d → (n : ℕ) × (walk n known a d ≡ some true)
  unfolding walk
  Ancestor-walk {d} (itself nz e) = (1, ground (arith, nz))
  Ancestor-walk {d} (above b nz found r) =
      let (n, e) = Ancestor-walk r in (suc n, ground (arith, nz))

  -- Where a measure falls, it bounds the rounds.
  Falls-ends :
      (depth : ℕ → ℕ) (fuel d : ℕ) → Falls depth known → depth d < fuel → walk fuel known a d ≢ none
  unfolding walk
  Falls-ends depth zero d falls lt = absurd (omega arith)
  Falls-ends depth (suc fuel) d falls lt = elim (Option-cases (get d known)) [
    | inl out ↦ λ e. ground arith
    | inr (b, found) ↦ λ e.
        ground (arith, parent-lt depth d b known falls found, Falls-ends depth fuel b.parent falls)
  ]

-- What an answer of the walk means.
abbrev pub Decides : Map ℕ Block → ℕ → ℕ → Bool → Type 0
Decides known a d true = Ancestor known a d
Decides known a d false = ¬ Ancestor known a d

-- The three ways of a call: the zero hash is below every block; the walk ends, with an answer that
-- is right; or the walk goes on after any number of rounds, and then the ancestor is not reached and
-- no measure falls along parents.
pub data Walks (known : Map ℕ Block) (d a : ℕ) : Type 0 where
  genesis : a ≡ genesis_hash → extends known d a ≡ true → Walks known d a
  ends :
      (b : Bool)
      → walk (suc (length known)) known a d ≡ some b
      → extends known d a ≡ b
      → Decides known a d b
      → Walks known d a
  circles :
      ((n : ℕ) → walk n known a d ≡ none)
      → ((depth : ℕ → ℕ) → ¬ Falls depth known)
      → ¬ Ancestor known a d
      → Walks known d a

refuted :
    (known : Map ℕ Block) (a d : ℕ)
    → walk (suc (length known)) known a d ≢ some true
    → ¬ Ancestor known a d
refuted known a d h r = let (n, e) = Ancestor-walk known a r in h (fuel_enough known a n d true e)

never :
    (known : Map ℕ Block) (a d : ℕ)
    → walk (suc (length known)) known a d ≡ none
    → (n : ℕ) → walk n known a d ≡ none
never known a d h n = elim (Option-cases (walk n known a d)) [
  | inl e ↦ e
  | inr (b, e) ↦ absurd (let e' = fuel_enough known a n d b e in cc)
]

-- For any known blocks, extends answers true for the zero hash; or its walk ends within one round
-- more than there are known blocks, with true exactly if the block is an ancestor; or the walk would
-- never end, and that only where no measure falls from each known block to its parent.
pub extends-Walks : (known : Map ℕ Block) (d a : ℕ) → Walks known d a
unfolding extends finished
extends-Walks known d a = elim (Bool-cases (a == genesis_hash)) [
  | inl z ↦ genesis (ground arith) (rw z refl)
  | inr nz ↦ elim (Option-cases (walk (suc (length known)) known a d)) [
    | inl out ↦
        circles (never known a d out)
          (λ depth falls.
            Falls-ends known a depth (suc (depth d)) d falls (omega arith)
              (never known a d out (suc (depth d))))
          (refuted known a d (λ e. cc))
    | inr (true, e) ↦ ends true e (rw (nz, e) refl) (walk-Ancestor known a (suc (length known)) d e)
    | inr (false, e) ↦ ends false e (rw (nz, e) refl) (refuted known a d (λ q. ground arith))
  ]
]
