-- ===== src/Memory/Commitments.antt =====
-- internal/store/memory.go: the commitments, and the ledger of accesses to each.
use gemot.Prelude.{
  ℕ, Bool, false, ◌&&◌, ◌||◌, none, some, List, [], ◌∷◌, ◌++◌, Map, String, str_eq, string_key, get,
  put, select, ltb,
}
use gemot.Prelude.Outcomes.{Outcome, ok, err}
use gemot.Prelude.Sorting.{sort_by}
use gemot.Memory.Records.{Commitment, CommitmentAccess, Deliberation}
use gemot.Memory.State.{MemoryStore, Error, Method, commitment_not_found, or_default, or_now}

unfoldable pub create_commitment : String → ℕ → Commitment → MemoryStore → Method Commitment
create_commitment fresh now c m =
    let c' = record c {
      id = or_default fresh c.id;
      created_at = or_now now c.created_at;
      status = or_default "pending" c.status;
    } in
    (ok c', record m { commitments = put c'.id c' m.commitments })

unfoldable pub sort_by_commitment_created_at : List Commitment → List Commitment
unfolding sort_by
sort_by_commitment_created_at = sort_by λ a b. ltb a.created_at b.created_at

unfoldable pub get_commitment_by_id : String → MemoryStore → Outcome Error Commitment
get_commitment_by_id id m = elim (get id m.commitments) [
  | none ↦ err commitment_not_found
  | some c ↦ ok c
]

unfoldable pub get_commitments : String → MemoryStore → List Commitment
unfolding sort_by_commitment_created_at
get_commitments id m =
    sort_by_commitment_created_at (select (λ c. str_eq c.deliberation_id id) m.commitments)

unfoldable pub get_commitments_by_agent : String → MemoryStore → List Commitment
unfolding sort_by_commitment_created_at
get_commitments_by_agent agent m =
    sort_by_commitment_created_at (select (λ c. str_eq c.agent_id agent) m.commitments)

-- delibsInGroup[id]
unfoldable pub in_group : String → String → Map String Deliberation → Bool
in_group group id [] = false
in_group group id ((_, d) ∷ ds) =
    (str_eq d.group_id group && str_eq d.id id) || in_group group id ds

unfoldable pub get_commitments_by_group : String → MemoryStore → List Commitment
unfolding sort_by_commitment_created_at in_group
get_commitments_by_group group m =
    sort_by_commitment_created_at
      (select (λ c. in_group group c.deliberation_id m.deliberations) m.commitments)

unfoldable pub update_commitment :
    String → (Commitment → Commitment) → MemoryStore → Method (Unit {0})
update_commitment id f m = elim (get id m.commitments) [
  | none ↦ (err commitment_not_found, m)
  | some c ↦ (ok tt, record m { commitments = put id (f c) m.commitments })
]

unfoldable pub update_commitment_status : String → String → MemoryStore → Method (Unit {0})
unfolding update_commitment
update_commitment_status id status = update_commitment id λ c. record c { status = status }

unfoldable pub fulfill_commitment : String → String → ℕ → MemoryStore → Method (Unit {0})
unfolding update_commitment
fulfill_commitment id verified_by now =
    update_commitment id
      λ c. record c { status = "fulfilled"; fulfilled_at = some now; verified_by = verified_by }

unfoldable pub break_commitment : String → String → String → ℕ → MemoryStore → Method (Unit {0})
unfolding update_commitment
break_commitment id reason verified_by now = update_commitment id λ c. record c {
  status = "broken";
  broken_at = some now;
  broken_reason = reason;
  verified_by = verified_by;
}

-- m.commitmentAccess[id], nil where it is missing.
unfoldable pub accesses_of : String → MemoryStore → List CommitmentAccess
accesses_of id m = elim (get id m.commitment_access) [ none ↦ [] | some as' ↦ as' ]

unfoldable pub record_commitment_access :
    String → ℕ → CommitmentAccess → MemoryStore → Method CommitmentAccess
unfolding accesses_of
record_commitment_access fresh now a m =
    let a' = record a {
      id = or_default fresh a.id;
      created_at = or_now now a.created_at;
      kind = or_default "read" a.kind;
    } in
    elim (get a.commitment_id m.commitments) [
      | none ↦ (err commitment_not_found, m)
      | some _ ↦ (
        ok a',
        record m {
          commitment_access =
              put a.commitment_id (accesses_of a.commitment_id m ++ (a' ∷ [])) m.commitment_access;
        },
      )
    ]

unfoldable pub get_commitment_accesses : String → MemoryStore → List CommitmentAccess
unfolding accesses_of
get_commitment_accesses id m = sort_by (λ a b. ltb a.created_at b.created_at) (accesses_of id m)
