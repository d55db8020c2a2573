-- ===== src/Auth/Signature/Injective.antt =====
-- What is signed determines what it says: the payloads of the four kinds never meet, and each can be
-- read off.
use mathlib.Core.List.{append_assoc, append-nil}
use gemot.Prelude.{ℕ, ◌^◌, ◌<◌, ◌≡◌, sym, ap, ◌∙◌, List, [], ◌∷◌, ◌++◌, length, arith}
use gemot.Prelude.Integers.{ℤ, pos, negsuc}
use gemot.Bft.Encoding.{big_endian}
use gemot.Bft.Encoding.Injective.{field-injective, append-injective}
use gemot.Auth.Signature.{
  domain_position, domain_vote, domain_envelope, domain_principal, write_len_prefixed, to_uint64,
  write_int64, position_payload, vote_payload, envelope_payload, principal_delegation_payload,
}

-- A field of a payload.
data Field : Type 0 where
  text : List ℕ → Field
  number : ℤ → Field

encode : List Field → List ℕ
encode [] = []
encode (text b ∷ fields) = big_endian 4 (length b) ++ (b ++ encode fields)
encode (number v ∷ fields) = big_endian 8 (to_uint64 v) ++ encode fields

-- The lengths fit in 32 bits and the numbers in an int64.
abbrev pub Short : List ℕ → Type 0
Short b = length b < 2 ^ 32

abbrev pub IsInt64 : ℤ → Type 0
IsInt64 (pos n) = n < 2 ^ 63
IsInt64 (negsuc n) = n < 2 ^ 63

to_uint64-lt : (v : ℤ) → IsInt64 v → to_uint64 v < 256 ^ 8
unfolding to_uint64
to_uint64-lt (pos n) h = omega arith
to_uint64-lt (negsuc n) h = omega arith

to_uint64-injective : (v w : ℤ) → IsInt64 v → IsInt64 w → to_uint64 v ≡ to_uint64 w → v ≡ w
unfolding to_uint64
to_uint64-injective (pos n) (pos k) h h' e = ap pos e
to_uint64-injective (pos n) (negsuc k) h h' e = absurd (omega arith)
to_uint64-injective (negsuc n) (pos k) h h' e = absurd (omega arith)
to_uint64-injective (negsuc n) (negsuc k) h h' e = ap negsuc (omega arith)

encode-text :
    (b c : List ℕ) (xs ys : List Field)
    → Short b
    → Short c
    → encode (text b ∷ xs) ≡ encode (text c ∷ ys)
    → (b ≡ c) × (encode xs ≡ encode ys)
unfolding encode
encode-text b c xs ys hb hc e =
    let n = field-injective 4 (length b) (length c) _ _ hb hc e in
    append-injective b c (encode xs) (encode ys) n.0 n.1

encode-number :
    (v w : ℤ) (xs ys : List Field)
    → IsInt64 v
    → IsInt64 w
    → encode (number v ∷ xs) ≡ encode (number w ∷ ys)
    → (v ≡ w) × (encode xs ≡ encode ys)
unfolding encode
encode-number v w xs ys hv hw e =
    let n =
      field-injective 8 (to_uint64 v) (to_uint64 w) _ _ (to_uint64-lt v hv) (to_uint64-lt w hw) e in
    (to_uint64-injective v w hv hw n.0, n.1)

-- What is signed.
pub data Signed : Type 0 where
  position : List ℕ → List ℕ → ℤ → List ℕ → Signed
  vote : List ℕ → List ℕ → List ℕ → ℤ → List ℕ → List ℕ → List ℕ → Signed
  envelope : List ℕ → List ℕ → List ℕ → List ℕ → ℤ → Signed
  delegation : List ℕ → List ℕ → List ℕ → List ℕ → List ℕ → ℤ → Signed

abbrev pub payload : (List ℕ → List ℕ) → Signed → List ℕ
payload sha256 (position a d r c) = position_payload sha256 a d r c
payload sha256 (vote a d p v q c k) = vote_payload a d p v q c k
payload sha256 (envelope a m h n t) = envelope_payload a m h n t
payload sha256 (delegation p a k s i e) = principal_delegation_payload p a k s i e

abbrev pub InRange : (List ℕ → List ℕ) → Signed → Type 0
InRange sha256 (position a d r c) = Short a × Short d × IsInt64 r × Short (sha256 c)
InRange sha256 (vote a d p v q c k) =
    Short a × Short d × Short p × IsInt64 v × Short q × Short c × Short k
InRange sha256 (envelope a m h n t) = Short a × Short m × Short h × Short n × IsInt64 t
InRange sha256 (delegation p a k s i e) =
    Short p × Short a × Short k × Short s × Short i × IsInt64 e

-- The same kind, with the same fields; the content of a position by its hash.
abbrev pub Same : (List ℕ → List ℕ) → Signed → Signed → Type 0
Same sha256 (position a d r c) (position a' d' r' c') =
    (a ≡ a') × (d ≡ d') × (r ≡ r') × (sha256 c ≡ sha256 c')
Same sha256 (vote a d p v q c k) (vote a' d' p' v' q' c' k') =
    (a ≡ a') × (d ≡ d') × (p ≡ p') × (v ≡ v') × (q ≡ q') × (c ≡ c') × (k ≡ k')
Same sha256 (envelope a m h n t) (envelope a' m' h' n' t') =
    (a ≡ a') × (m ≡ m') × (h ≡ h') × (n ≡ n') × (t ≡ t')
Same sha256 (delegation p a k s i e) (delegation p' a' k' s' i' e') =
    (p ≡ p') × (a ≡ a') × (k ≡ k') × (s ≡ s') × (i ≡ i') × (e ≡ e')
Same sha256 _ _ = ⊥

abbrev domain : Signed → List ℕ
domain (position a d r c) = domain_position
domain (vote a d p v q c k) = domain_vote
domain (envelope a m h n t) = domain_envelope
domain (delegation p a k s i e) = domain_principal

abbrev fields : (List ℕ → List ℕ) → Signed → List Field
fields sha256 (position a d r c) = text a ∷ text d ∷ number r ∷ text (sha256 c) ∷ []
fields sha256 (vote a d p v q c k) =
    text a ∷ text d ∷ text p ∷ number v ∷ text q ∷ text c ∷ text k ∷ []
fields sha256 (envelope a m h n t) = text a ∷ text m ∷ text h ∷ text n ∷ number t ∷ []
fields sha256 (delegation p a k s i e) = text p ∷ text a ∷ text k ∷ text s ∷ text i ∷ number e ∷ []

-- The calls that append field after field write the fields in order.
payload-encode :
    (sha256 : List ℕ → List ℕ) (s : Signed)
    → payload sha256 s ≡ encode (text (domain s) ∷ fields sha256 s)
unfolding encode position_payload vote_payload envelope_payload principal_delegation_payload
    write_len_prefixed write_int64
payload-encode sha256 (position a d r c) = simp (append_assoc, append-nil, encode)
payload-encode sha256 (vote a d p v q c k) = simp (append_assoc, append-nil, encode)
payload-encode sha256 (envelope a m h n t) = simp (append_assoc, append-nil, encode)
payload-encode sha256 (delegation p a k s i e) = simp (append_assoc, append-nil, encode)

-- The first field tells the kinds apart.
payload-domain :
    (sha256 : List ℕ → List ℕ) (s t : Signed)
    → payload sha256 s ≡ payload sha256 t
    → Short (domain s)
    → Short (domain t)
    → (domain s ≡ domain t) × (encode (fields sha256 s) ≡ encode (fields sha256 t))
payload-domain sha256 s t e hs ht =
    encode-text (domain s) (domain t) (fields sha256 s) (fields sha256 t) hs ht
      (sym (payload-encode sha256 s) ∙ e ∙ payload-encode sha256 t)

domain-Short : (s : Signed) → Short (domain s)
domain-Short (position a d r c) = omega arith
domain-Short (vote a d p v q c k) = omega arith
domain-Short (envelope a m h n t) = omega arith
domain-Short (delegation p a k s i e) = omega arith

-- Equal bytes were signed for the same kind of action, with the same fields.
fields-Same :
    (sha256 : List ℕ → List ℕ) (s t : Signed)
    → InRange sha256 s
    → InRange sha256 t
    → domain s ≡ domain t
    → encode (fields sha256 s) ≡ encode (fields sha256 t)
    → Same sha256 s t
fields-Same sha256 (position a d r c) (position a' d' r' c') h h' _ e =
    let (p1, e1) = encode-text a a' _ _ h.0 h'.0 e in
    let (p2, e2) = encode-text d d' _ _ h.1 h'.1 e1 in
    let (p3, e3) = encode-number r r' _ _ h.2 h'.2 e2 in
    (p1, p2, p3, (encode-text (sha256 c) (sha256 c') [] [] h.3 h'.3 e3).0)
fields-Same sha256 (vote a d p v q c k) (vote a' d' p' v' q' c' k') h h' _ e =
    let (p1, e1) = encode-text a a' _ _ h.0 h'.0 e in
    let (p2, e2) = encode-text d d' _ _ h.1 h'.1 e1 in
    let (p3, e3) = encode-text p p' _ _ h.2 h'.2 e2 in
    let (p4, e4) = encode-number v v' _ _ h.3 h'.3 e3 in
    let (p5, e5) = encode-text q q' _ _ h.4 h'.4 e4 in
    let (p6, e6) = encode-text c c' _ _ h.5 h'.5 e5 in
    (p1, p2, p3, p4, p5, p6, (encode-text k k' [] [] h.6 h'.6 e6).0)
fields-Same sha256 (envelope a m b n t) (envelope a' m' b' n' t') h h' _ e =
    let (p1, e1) = encode-text a a' _ _ h.0 h'.0 e in
    let (p2, e2) = encode-text m m' _ _ h.1 h'.1 e1 in
    let (p3, e3) = encode-text b b' _ _ h.2 h'.2 e2 in
    let (p4, e4) = encode-text n n' _ _ h.3 h'.3 e3 in
    (p1, p2, p3, p4, (encode-number t t' [] [] h.4 h'.4 e4).0)
fields-Same sha256 (delegation p a k s i t) (delegation p' a' k' s' i' t') h h' _ e =
    let (p1, e1) = encode-text p p' _ _ h.0 h'.0 e in
    let (p2, e2) = encode-text a a' _ _ h.1 h'.1 e1 in
    let (p3, e3) = encode-text k k' _ _ h.2 h'.2 e2 in
    let (p4, e4) = encode-text s s' _ _ h.3 h'.3 e3 in
    let (p5, e5) = encode-text i i' _ _ h.4 h'.4 e4 in
    (p1, p2, p3, p4, p5, (encode-number t t' [] [] h.5 h'.5 e5).0)
fields-Same sha256 _ _ h h' other e = absurd (ground arith)

-- Two payloads with the same bytes, of texts shorter than 2^32 bytes and int64 numbers, are for the
-- same kind of action, with the same fields, where the contents of positions have the same hash.
pub payload-Same :
    (sha256 : List ℕ → List ℕ) (s t : Signed)
    → InRange sha256 s
    → InRange sha256 t
    → payload sha256 s ≡ payload sha256 t
    → Same sha256 s t
payload-Same sha256 s t h h' e =
    let r = payload-domain sha256 s t e (domain-Short s) (domain-Short t) in
    fields-Same sha256 s t h h' r.0 r.1
