-- ===== src/Auth/Signature.antt =====
-- internal/auth/signature.go: the bytes that agents and principals sign, and their verification. A Go
-- string or byte slice is the list of its bytes. SHA-256 and ed25519.Verify are parameters.
pub mod Injective
use gemot.Prelude.{
  ℕ, ◌-◌, ◌%◌, ◌^◌, Bool, ◌||◌, not, List, ◌++◌, [], String, str_eq, runes, length, ◌==◌,
  if◌then◌else◌,
}
use gemot.Prelude.Integers.{ℤ, pos, negsuc}
use gemot.Prelude.Outcomes.{Outcome, ok, err}
use gemot.Bft.Encoding.{big_endian}

abbrev pub domain_position : List ℕ
domain_position = runes "gemot/v1/position"

abbrev pub domain_vote : List ℕ
domain_vote = runes "gemot/v1/vote"

abbrev pub domain_envelope : List ℕ
domain_envelope = runes "gemot/v1/envelope"

abbrev pub domain_principal : List ℕ
domain_principal = runes "gemot/v1/principal-delegation"

abbrev pub algo_ed25519 : String
algo_ed25519 = "ed25519"

pub data Error : Type 0 where
  invalid_key : Error
  verify_failed : Error
  unsupported_algo : Error

-- uint32(len(b)) in four bytes, whose digits leave out what a conversion to uint32 drops.
unfoldable pub write_len_prefixed : List ℕ → List ℕ → List ℕ
unfolding big_endian
write_len_prefixed buf b = buf ++ big_endian 4 (length b) ++ b

-- uint64(v), for an int64.
unfoldable pub to_uint64 : ℤ → ℕ
to_uint64 (pos n) = n
to_uint64 (negsuc n) = 2 ^ 64 - 1 - n

unfoldable pub write_int64 : List ℕ → ℤ → List ℕ
unfolding to_uint64 big_endian
write_int64 buf v = buf ++ big_endian 8 (to_uint64 v)

unfoldable pub position_payload : (List ℕ → List ℕ) → List ℕ → List ℕ → ℤ → List ℕ → List ℕ
unfolding write_len_prefixed write_int64
position_payload sha256 agent_id deliberation_id round content =
    let buf = write_len_prefixed [] domain_position in
    let buf1 = write_len_prefixed buf agent_id in
    let buf2 = write_len_prefixed buf1 deliberation_id in
    let buf3 = write_int64 buf2 round in write_len_prefixed buf3 (sha256 content)

unfoldable pub vote_payload : List ℕ → List ℕ → List ℕ → ℤ → List ℕ → List ℕ → List ℕ → List ℕ
unfolding write_len_prefixed write_int64
vote_payload agent_id deliberation_id position_id value qualifier caveat criterion_id =
    let buf = write_len_prefixed [] domain_vote in
    let buf1 = write_len_prefixed buf agent_id in
    let buf2 = write_len_prefixed buf1 deliberation_id in
    let buf3 = write_len_prefixed buf2 position_id in
    let buf4 = write_int64 buf3 value in
    let buf5 = write_len_prefixed buf4 qualifier in
    let buf6 = write_len_prefixed buf5 caveat in write_len_prefixed buf6 criterion_id

unfoldable pub envelope_payload : List ℕ → List ℕ → List ℕ → List ℕ → ℤ → List ℕ
unfolding write_len_prefixed write_int64
envelope_payload agent_id method body_hash nonce timestamp =
    let buf = write_len_prefixed [] domain_envelope in
    let buf1 = write_len_prefixed buf agent_id in
    let buf2 = write_len_prefixed buf1 method in
    let buf3 = write_len_prefixed buf2 body_hash in
    let buf4 = write_len_prefixed buf3 nonce in write_int64 buf4 timestamp

unfoldable pub principal_delegation_payload :
    List ℕ → List ℕ → List ℕ → List ℕ → List ℕ → ℤ → List ℕ
unfolding write_len_prefixed write_int64
principal_delegation_payload principal agent agent_key scope issuer expires_at =
    let buf = write_len_prefixed [] domain_principal in
    let buf1 = write_len_prefixed buf principal in
    let buf2 = write_len_prefixed buf1 agent in
    let buf3 = write_len_prefixed buf2 agent_key in
    let buf4 = write_len_prefixed buf3 scope in
    let buf5 = write_len_prefixed buf4 issuer in write_int64 buf5 expires_at

abbrev pub public_key_size : ℕ
public_key_size = 32

-- The switch on the algorithm and the size of the key, which Verify and ValidatePublicKey begin with.
unfoldable pub validate_public_key : String → List ℕ → Outcome Error (Unit {0})
validate_public_key algo pubkey =
    if str_eq algo algo_ed25519 || str_eq algo ""
    then if not (length pubkey == public_key_size) then err invalid_key else ok tt
    else err unsupported_algo

unfoldable pub verify :
    (List ℕ → List ℕ → List ℕ → Bool) → String → List ℕ → List ℕ → List ℕ → Outcome Error (Unit {0})
verify ed25519_verify algo pubkey msg sig =
    if str_eq algo algo_ed25519 || str_eq algo ""
    then if not (length pubkey == public_key_size)
      then err invalid_key
      else if not (ed25519_verify pubkey msg sig)
      then err verify_failed
      else ok tt
    else err unsupported_algo
