-- ===== src/Bft/Quorum/Disjoint.antt =====
-- Quorums of 2f+1 that a replica set of more than 3f+1 admits: from 4f+2 replicas on, two of them
-- need not share a single replica.
use gemot.Prelude.{
  ℕ, zero, suc, ◌+◌, ◌*◌, ◌≤◌, ◌<◌, ◌≡◌, refl, ap, true, false, ◌&&◌, List, [], ◌∷◌, length, elem,
  leb, ltb, All, All-map, arith,
}
use gemot.Prelude.Outcomes.{ok}
use gemot.Bft.Types.{Qc}
use gemot.Bft.Encoding.{vote_digest}
use gemot.Bft.Replica.{Replica}
use gemot.Bft.Justify.{verify_qc, distinct}
use gemot.Bft.Quorum.{common}

-- The replicas lo, lo + 1, ..., k of them.
unfoldable pub from : ℕ → ℕ → List ℕ
from lo zero = []
from lo (suc k) = lo ∷ from (suc lo) k

length-from : (lo k : ℕ) → length (from lo k) ≡ k
unfolding from
length-from lo zero = refl
length-from lo (suc k) = ap suc (length-from (suc lo) k)

-- Lists that lie above everything seen hold no duplicate.
distinct-from :
    (lo k : ℕ) (seen : List ℕ) → All (λ i. i < lo) seen → distinct seen (from lo k) ≡ true
unfolding from distinct
distinct-from lo zero seen b = refl
distinct-from lo (suc k) seen b = ground (
  arith,
  elem-below lo seen b,
  distinct-from (suc lo) k (lo ∷ seen)
      (omega arith, All-map (λ i (h : i < lo). let g : i < suc lo = omega arith in g) seen b),
)
  where
    elem-below : (lo : ℕ) (seen : List ℕ) → All (λ i. i < lo) seen → elem lo seen ≡ false
    elem-below lo [] b = refl
    elem-below lo (x ∷ seen) b = ground (arith, elem-below lo seen b.1)

elem-from : (i lo k : ℕ) → elem i (from lo k) ≡ (leb lo i && ltb i (lo + k))
unfolding from
elem-from i lo zero = ground arith
elem-from i lo (suc k) = ground (arith, elem-from i (suc lo) k)

from-below : (n lo k : ℕ) → lo + k ≤ n → All (λ i. i < n) (from lo k)
unfolding from
from-below n lo zero h = tt
from-below n lo (suc k) h = (omega arith, from-below n (suc lo) k (omega arith))

common-from : (n k : ℕ) → common n (from 0 k) (from k k) ≡ 0
unfolding common
common-from zero k = refl
common-from (suc n) k = ground (arith, common-from n k, elem-from n 0 k, elem-from n k k)

abbrev pub certificate : ℕ → ℕ → List ℕ → List ℕ → Qc
certificate v h signers sig = record { view = v; block_hash = h; signers = signers; agg_sig = sig }

-- With 4f+2 replicas or more, 2f+1 of them that sign one block and 2f+1 others that sign another
-- block in the same view give two QCs that a replica accepts, though no replica signed both.
pub disjoint_quorums :
    {L V : Type 0} (r : Replica L V) (v h h' : ℕ) (sig sig' : List ℕ)
    → 4 * r.f + 2 ≤ r.n
    → r.signer.verify_aggregate (from 0 (2 * r.f + 1)) (vote_digest v h) sig ≡ true
    → r.signer.verify_aggregate (from (2 * r.f + 1) (2 * r.f + 1)) (vote_digest v h') sig' ≡ true
    → (verify_qc r (certificate v h (from 0 (2 * r.f + 1)) sig) ≡ ok tt)
      × (verify_qc r (certificate v h' (from (2 * r.f + 1) (2 * r.f + 1)) sig') ≡ ok tt)
      × (All (λ i. i < r.n) (from (2 * r.f + 1) (2 * r.f + 1)))
      × (common r.n (from 0 (2 * r.f + 1)) (from (2 * r.f + 1) (2 * r.f + 1)) ≡ 0)
unfolding verify_qc
disjoint_quorums r v h h' sig sig' big a b =
    let q = 2 * r.f + 1 in
    (
      ground (arith, length-from 0 q, distinct-from 0 q [] tt),
      ground (arith, length-from q q, distinct-from q q [] tt),
      from-below r.n q q (omega arith),
      common-from r.n q,
    )
