-- ===== src/Bft/Encoding.antt =====
-- The byte sequences that are hashed and signed: Block.Hash, bigEndian8 and the digests of
-- protocol.go and signature.go.
pub mod Injective
use gemot.Prelude.{ℕ, zero, suc, ◌/◌, ◌%◌, ◌^◌, List, [], ◌∷◌, ◌++◌}
use gemot.Bft.Types.{Block}

-- byte(v >> 8 * w), ..., byte(v): the w low bytes of v, most significant first.
unfoldable pub big_endian : ℕ → ℕ → List ℕ
big_endian zero v = []
big_endian (suc w) v = (v / 256 ^ w % 256) ∷ big_endian w v

unfoldable pub big_endian8 : ℕ → List ℕ
unfolding big_endian
big_endian8 v = big_endian 8 v

-- The 32 bytes of a Hash.
unfoldable pub hash_bytes : ℕ → List ℕ
unfolding big_endian
hash_bytes h = big_endian 32 h

-- What Block.Hash writes to the digest.
unfoldable pub block_bytes : Block → List ℕ
unfolding big_endian8 hash_bytes
block_bytes b = big_endian8 b.height ++ (hash_bytes b.parent ++ (big_endian8 b.view ++ b.payload))

unfoldable pub block_hash : (List ℕ → ℕ) → Block → ℕ
unfolding block_bytes
block_hash sha256 b = sha256 (block_bytes b)

abbrev pub domain_vote : ℕ
domain_vote = 0x01

abbrev pub domain_proposal : ℕ
domain_proposal = 0x02

abbrev pub domain_new_view : ℕ
domain_new_view = 0x03

unfoldable pub digest_for : ℕ → ℕ → ℕ → List ℕ
unfolding big_endian8 hash_bytes
digest_for domain view h = domain ∷ (big_endian8 view ++ hash_bytes h)

unfoldable pub vote_digest : ℕ → ℕ → List ℕ
unfolding digest_for
vote_digest view h = digest_for domain_vote view h

unfoldable pub proposal_sign_digest : ℕ → ℕ → List ℕ
unfolding digest_for
proposal_sign_digest view h = digest_for domain_proposal view h

unfoldable pub new_view_digest : ℕ → ℕ → ℕ → List ℕ
unfolding big_endian8 hash_bytes
new_view_digest target_view high_qc_view high_qc_hash =
    domain_new_view
    ∷ (big_endian8 target_view ++ (big_endian8 high_qc_view ++ hash_bytes high_qc_hash))
