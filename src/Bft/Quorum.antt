-- ===== src/Bft/Quorum.antt =====
-- Quorums of verifyQC (protocol.go) and Quorum (state.go): how far two of them overlap.
pub mod Agreement
pub mod Disjoint
use gemot.Prelude.{
  ℕ, zero, suc, ◌+◌, ◌*◌, ◌≤◌, ◌<◌, ◌≡◌, ◌⊎◌, inl, inr, refl, Bool, true, false, not, ◌&&◌, List,
  [], ◌∷◌, length, elem, All, arith, if◌then◌else◌, ◌==◌, sym, ap, leb, ltb, ==_refl, All-map,
}
use gemot.Prelude.Outcomes.{ok}
use gemot.Bft.Types.{Qc}
use gemot.Bft.Replica.{Replica}
use gemot.Bft.Justify.{verify_qc, distinct}

abbrev one_if : Bool → ℕ
one_if true = 1
one_if false = 0

-- How many numbers below n pass the test.
unfoldable pub count_below : ℕ → (ℕ → Bool) → ℕ
count_below zero p = 0
count_below (suc n) p = one_if (p n) + count_below n p

-- The replicas below n that are in both lists.
unfoldable pub common : ℕ → List ℕ → List ℕ → ℕ
unfolding count_below
common n xs ys = count_below n (λ i. elem i xs && elem i ys)

count-cons_above :
    (n x : ℕ) (xs : List ℕ)
    → n ≤ x
    → count_below n (λ i. elem i (x ∷ xs)) ≡ count_below n (λ i. elem i xs)
unfolding count_below
count-cons_above zero x xs h = refl
count-cons_above (suc n) x xs h = ground (arith, count-cons_above n x xs)

count-cons :
    (n x : ℕ) (xs : List ℕ)
    → x < n
    → elem x xs ≡ false
    → count_below n (λ i. elem i (x ∷ xs)) ≡ suc (count_below n (λ i. elem i xs))
unfolding count_below
count-cons zero x xs h e = absurd (omega arith)
count-cons (suc n) x xs h e = ground (arith, count-cons_above n x xs, count-cons n x xs)

-- The lists overlap in at least what they hold beyond n together.
overlap :
    (n : ℕ) (xs ys : List ℕ)
    → count_below n (λ i. elem i xs) + count_below n (λ i. elem i ys) ≤ n + common n xs ys
unfolding common
overlap zero xs ys = omega arith
overlap (suc n) xs ys = ground (arith, overlap n xs ys)

-- What the loop has seen does not come again.
distinct-fresh :
    (s : ℕ) (seen xs : List ℕ) → distinct seen xs ≡ true → elem s seen ≡ true → elem s xs ≡ false
unfolding distinct
distinct-fresh s seen [] d e = refl
distinct-fresh s seen (x ∷ xs) d e = ground (arith, distinct-fresh s (x ∷ seen) xs)

distinct-rest :
    (seen : List ℕ) (x : ℕ) (xs : List ℕ)
    → distinct seen (x ∷ xs) ≡ true
    → distinct (x ∷ seen) xs ≡ true
unfolding distinct
distinct-rest seen x xs d = ground arith

-- Distinct replicas below n are counted once each.
length-count :
    (n : ℕ) (seen xs : List ℕ)
    → distinct seen xs ≡ true
    → All (λ i. i < n) xs
    → length xs ≡ count_below n (λ i. elem i xs)
unfolding count_below
length-count n seen [] d b = sym (count-none n)
  where
    count-none : (n : ℕ) → count_below n (λ i. false) ≡ 0
    count-none zero = refl
    count-none (suc n) = omega (arith, count-none n)
length-count n seen (x ∷ xs) d b =
    let rest = distinct-rest seen x xs d in
    let fresh = distinct-fresh x (x ∷ seen) xs rest (rw ==_refl refl) in
    omega (arith, length-count n (x ∷ seen) xs rest b.1, count-cons n x xs b.0 fresh)

module _ {L V : Type 0} (r : Replica L V) where
  -- The signers of a QC that passes are a quorum and distinct.
  verify_qc-facts :
      (qc : Qc)
      → verify_qc r qc ≡ ok tt
      → (2 * r.f + 1 ≤ length qc.signers) × (distinct [] qc.signers ≡ true)
  unfolding verify_qc
  verify_qc-facts qc h = (ground arith, ground arith)

  -- Two QCs that a replica of at most 3f+1 peers accepts have more than f signers in common.
  pub verify_qc-overlap :
      (a b : Qc)
      → r.n ≤ 3 * r.f + 1
      → All (λ i. i < r.n) a.signers
      → All (λ i. i < r.n) b.signers
      → verify_qc r a ≡ ok tt
      → verify_qc r b ≡ ok tt
      → r.f < common r.n a.signers b.signers
  verify_qc-overlap a b small ia ib va vb = omega (
    arith,
    verify_qc-facts a va,
    verify_qc-facts b vb,
    length-count r.n [] a.signers (verify_qc-facts a va).1 ia,
    length-count r.n [] b.signers (verify_qc-facts b vb).1 ib,
    overlap r.n a.signers b.signers,
  )
