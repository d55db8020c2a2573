-- ===== src/Bft/Encoding/Injective.antt =====
-- The encodings determine what they encode, and the digests of the three domains never meet.
use native.Mathlib.Nat.{div-add-mod, div-div-eq-div-mul, mod-eq_of_lt, pow-suc}
use gemot.Prelude.{
  ℕ, zero, suc, ◌+◌, ◌*◌, ◌/◌, ◌%◌, ◌^◌, ◌<◌, ◌≡◌, ◌≢◌, refl, sym, ap, ◌∙◌, List, [], ◌∷◌, ◌++◌,
  length, arith,
}
use gemot.Bft.Types.{Block, two64}
use gemot.Bft.Encoding.{
  big_endian, big_endian8, hash_bytes, block_bytes, digest_for, vote_digest, proposal_sign_digest,
  new_view_digest,
}

length-big_endian : (w v : ℕ) → length (big_endian w v) ≡ w
unfolding big_endian
length-big_endian zero v = refl
length-big_endian (suc w) v = ap suc (length-big_endian w v)

-- Two splits of one list at the same length are the same split.
pub append-injective :
    {A : Type 0} (xs xs' ys ys' : List A)
    → length xs ≡ length xs'
    → xs ++ ys ≡ xs' ++ ys'
    → (xs ≡ xs') × (ys ≡ ys')
append-injective [] [] ys ys' n e = (refl, e)
append-injective [] (x ∷ xs') ys ys' n e = absurd (omega arith)
append-injective (x ∷ xs) [] ys ys' n e = absurd (omega arith)
append-injective (x ∷ xs) (x' ∷ xs') ys ys' n e =
    let r = append-injective xs xs' ys ys' (omega arith) (cc) in (cc (r.0), r.1)

-- The value that big-endian bytes stand for.
from_big_endian : ℕ → List ℕ → ℕ
from_big_endian acc [] = acc
from_big_endian acc (b ∷ bs) = from_big_endian (acc * 256 + b) bs

-- One more byte in front extends the range by a factor of 256.
mod-mul-256 : (p v : ℕ) → v % (p * 256) ≡ v / p % 256 * p + v % p
mod-mul-256 p v = omega (
  arith,
  div-add-mod v p,
  div-add-mod v (p * 256),
  ap (λ (t : ℕ). p * 256 * t) (div-div-eq-div-mul v p 256),
  ap (λ (t : ℕ). p * t) (div-add-mod (v / p) 256),
)

from_big_endian-big_endian :
    (w acc v : ℕ) → from_big_endian acc (big_endian w v) ≡ acc * 256 ^ w + v % 256 ^ w
unfolding big_endian from_big_endian
from_big_endian-big_endian zero acc v = omega arith
from_big_endian-big_endian (suc w) acc v = rw (pow-suc 256 w) (
    omega (
      arith,
      from_big_endian-big_endian w (acc * 256 + v / 256 ^ w % 256) v,
      mod-mul-256 (256 ^ w) v,
    ))

-- Numbers that fit in w bytes are determined by their bytes.
big_endian-injective :
    (w u v : ℕ) → u < 256 ^ w → v < 256 ^ w → big_endian w u ≡ big_endian w v → u ≡ v
big_endian-injective w u v hu hv e = omega (
  arith,
  mod-eq_of_lt hu,
  mod-eq_of_lt hv,
  from_big_endian-big_endian w 0 u,
  from_big_endian-big_endian w 0 v,
  ap (from_big_endian 0) e,
)

-- A header field in front of the rest of an encoding can be read off.
pub field-injective :
    (w u v : ℕ) (xs ys : List ℕ)
    → u < 256 ^ w
    → v < 256 ^ w
    → big_endian w u ++ xs ≡ big_endian w v ++ ys
    → (u ≡ v) × (xs ≡ ys)
field-injective w u v xs ys hu hv e =
    let r =
      append-injective (big_endian w u) (big_endian w v) xs ys
        (length-big_endian w u ∙ sym (length-big_endian w v)) e in
    (big_endian-injective w u v hu hv r.0, r.1)

-- The fields of a block are in the range of their Go types.
pub record InRange (b : Block) : Type 0 where
  pub height : b.height < two64
  pub parent : b.parent < 2 ^ 256
  pub view : b.view < two64

-- Two blocks in range with the same hash preimage agree in height, parent, view and payload.
pub block_bytes-injective :
    (b c : Block)
    → InRange b
    → InRange c
    → block_bytes b ≡ block_bytes c
    → (b.height ≡ c.height) × (b.parent ≡ c.parent) × (b.view ≡ c.view) × (b.payload ≡ c.payload)
unfolding block_bytes big_endian8 hash_bytes
block_bytes-injective b c hb hc e =
    let h = field-injective 8 b.height c.height _ _ hb.height hc.height e in
    let p = field-injective 32 b.parent c.parent _ _ hb.parent hc.parent h.1 in
    let v = field-injective 8 b.view c.view _ _ hb.view hc.view p.1 in (h.0, p.0, v.0, v.1)

-- Two equal digests, of views below 2^64 and hashes below 2^256, are for the same domain, view and
-- block.
pub digest_for-injective :
    (d d' v v' h h' : ℕ)
    → v < two64
    → v' < two64
    → h < 2 ^ 256
    → h' < 2 ^ 256
    → digest_for d v h ≡ digest_for d' v' h'
    → (d ≡ d') × (v ≡ v') × (h ≡ h')
unfolding digest_for big_endian8 hash_bytes
digest_for-injective d d' v v' h h' hv hv' hh hh' e =
    let t : big_endian 8 v ++ big_endian 32 h ≡ big_endian 8 v' ++ big_endian 32 h' = cc in
    let r = field-injective 8 v v' _ _ hv hv' t in
    (cc, r.0, big_endian-injective 32 h h' hh hh' r.1)

-- The bytes signed for a vote, a proposal and a NewView differ pairwise, whatever they are about.
pub domains_separate :
    (v v' w h h' : ℕ)
    → (vote_digest v h ≢ proposal_sign_digest v' h')
      × (vote_digest v h ≢ new_view_digest v' w h')
      × (proposal_sign_digest v h ≢ new_view_digest v' w h')
unfolding vote_digest proposal_sign_digest new_view_digest
domains_separate v v' w h h' = (λ e. ground arith, λ e. ground arith, λ e. ground arith)
