-- ===== src/Bft/Examples/Bytes.antt =====
-- The theorems on hash preimages and signed digests at a concrete block.
use gemot.Prelude.{ℕ, ◌≡◌, refl, nat_key, arith}
use gemot.Bft.Encoding.{block_bytes}
use gemot.Bft.Encoding.Injective.{InRange, block_bytes-injective, digest_for-injective}
use gemot.Bft.Examples.{block_1, qc_1}

block_1-InRange : InRange block_1
block_1-InRange = omega arith

block_bytes-injective_example :
    (block_1.height ≡ block_1.height)
    × (block_1.parent ≡ block_1.parent)
    × (block_1.view ≡ block_1.view)
    × (block_1.payload ≡ block_1.payload)
block_bytes-injective_example =
    block_bytes-injective block_1 (record block_1 { justify = qc_1 }) block_1-InRange
      block_1-InRange' same_bytes
  where
    block_1-InRange' : InRange (record block_1 { justify = qc_1 })
    block_1-InRange' = omega arith

    same_bytes : block_bytes block_1 ≡ block_bytes (record block_1 { justify = qc_1 })
    same_bytes = unfold block_bytes in refl

digest_for-injective_example : (◌≡◌ {A = ℕ} 1 1) × (◌≡◌ {A = ℕ} 5 5) × (◌≡◌ {A = ℕ} 9 9)
digest_for-injective_example =
    digest_for-injective 1 1 5 5 9 9 (omega arith) (omega arith) (omega arith) (omega arith) refl
