-- ===== src/Memory/Deliberations.antt =====
-- internal/store/memory.go: the deliberations and the times of their status changes.
use gemot.Prelude.{
  ℕ, ◌+◌, ◌-◌, Bool, true, false, not, ◌&&◌, ◌||◌, Option, none, some, List, [], ◌∷◌, Map, String,
  str_eq, string_key, get, put, select, ltb, ◌==◌, if◌then◌else◌,
}
use gemot.Prelude.Outcomes.{Outcome, ok, err}
use gemot.Prelude.Sorting.{sort_by}
use gemot.Memory.Records.{Deliberation, Resolution, Position}
use gemot.Memory.State.{
  MemoryStore, Error, Method, deliberation_exists, deliberation_not_found, or_default, or_now,
}

-- The pointer that the map holds under an id, or the error that it is not there.
unfoldable pub on_deliberation :
    {A : Type 0} → String → (Deliberation → MemoryStore → Method A) → MemoryStore → Method A
on_deliberation id f m = elim (get id m.deliberations) [
  | none ↦ (err deliberation_not_found, m)
  | some d ↦ f d m
]

unfoldable pub write : String → Deliberation → MemoryStore → MemoryStore
write id d m = record m { deliberations = put id d m.deliberations }

unfoldable pub mark_changed : String → ℕ → MemoryStore → MemoryStore
mark_changed id now m = record m { status_changed = put id now m.status_changed }

-- The deliberation with its id and its time filled in.
unfoldable pub complete : String → ℕ → Deliberation → Deliberation
complete fresh now d = record d { id = or_default fresh d.id; created_at = or_now now d.created_at }

unfoldable pub create_deliberation : String → ℕ → Deliberation → MemoryStore → Method Deliberation
unfolding complete write mark_changed
create_deliberation fresh now d m =
    let d' = complete fresh now d in
    elim (get d'.id m.deliberations) [
      | some _ ↦ (err deliberation_exists, m)
      | none ↦ (ok d', mark_changed d'.id d'.created_at (write d'.id d' m))
    ]

unfoldable pub get_deliberation : String → MemoryStore → Outcome Error Deliberation
get_deliberation id m = elim (get id m.deliberations) [
  | none ↦ err deliberation_not_found
  | some d ↦ ok d
]

-- out[offset:], and nil beyond the end.
unfoldable pub skip : {A : Type 0} → ℕ → List A → List A
skip n [] = []
skip n (x ∷ xs) = let rest = skip (n - 1) xs in if n == 0 then x ∷ xs else rest

-- out[:limit], where a limit of 0 is none.
unfoldable pub first : {A : Type 0} → ℕ → List A → List A
first n [] = []
first n (x ∷ xs) = let rest = first (n - 1) xs in if n == 0 then [] else x ∷ rest

unfoldable pub page : {A : Type 0} → ℕ → ℕ → List A → List A
unfolding skip first
page limit offset out = let rest = skip offset out in if limit == 0 then rest else first limit rest

unfoldable pub newest_first : Deliberation → Deliberation → Bool
newest_first a b = ltb b.created_at a.created_at

unfoldable pub list_sorted : (Deliberation → Bool) → ℕ → ℕ → MemoryStore → List Deliberation
unfolding page newest_first
list_sorted pred limit offset m =
    page limit offset (sort_by newest_first (select pred m.deliberations))

unfoldable pub is_open : Deliberation → Bool
is_open d = str_eq d.visibility "open" || str_eq d.visibility ""

-- m.acl[id][key], false where either is missing.
unfoldable pub in_acl : MemoryStore → String → String → Bool
in_acl m id key = elim (get id m.acl) [
  | none ↦ false
  | some keys ↦ elim (get key keys) [ none ↦ false | some b ↦ b ]
]

-- The predicate of ListDeliberations.
unfoldable pub listable : MemoryStore → String → Deliberation → Bool
unfolding is_open in_acl
listable m key d =
    is_open d || (not (str_eq key "") && (str_eq d.creator_key key || in_acl m d.id key))

unfoldable pub list_deliberations : ℕ → ℕ → String → MemoryStore → List Deliberation
unfolding list_sorted listable
list_deliberations limit offset key m = list_sorted (listable m key) limit offset m

unfoldable pub list_by_group : String → ℕ → ℕ → String → MemoryStore → List Deliberation
unfolding list_sorted listable
list_by_group group limit offset key m =
    list_sorted (λ d. str_eq d.group_id group && listable m key d) limit offset m

-- The agent has a position, drafts included, in the deliberation.
unfoldable pub involves : String → String → Map String Position → Bool
involves agent id [] = false
involves agent id ((_, p) ∷ positions) =
    (str_eq p.agent_id agent && str_eq p.deliberation_id id) || involves agent id positions

unfoldable pub list_by_agent : String → ℕ → ℕ → String → MemoryStore → List Deliberation
unfolding list_sorted listable involves
list_by_agent agent limit offset key m =
    list_sorted (λ d. involves agent d.id m.positions && listable m key d) limit offset m

unfoldable pub set_group_id : String → String → MemoryStore → Method (Unit {0})
unfolding on_deliberation write
set_group_id id group m =
    on_deliberation id (λ d m. (ok tt, write id (record d { group_id = group }) m)) m

unfoldable pub update_deliberation_status : String → String → ℕ → MemoryStore → Method (Unit {0})
unfolding on_deliberation write mark_changed
update_deliberation_status id status now m =
    on_deliberation id
      (λ d m.
        let m' = write id (record d { status = status }) m in
        (ok tt, if str_eq d.status status then m' else mark_changed id now m'))
      m

unfoldable pub save_resolution : String → Option Resolution → MemoryStore → Method (Unit {0})
unfolding on_deliberation write
save_resolution id resolution m =
    on_deliberation id (λ d m. (ok tt, write id (record d { resolution = resolution }) m)) m

unfoldable pub update_deliberation_template : String → String → MemoryStore → Method (Unit {0})
unfolding on_deliberation write
update_deliberation_template id template m =
    on_deliberation id (λ d m. (ok tt, write id (record d { template = template }) m)) m

-- The loop that copies a map of rules.
unfoldable pub copy_map : Map String String → Map String String → Map String String
copy_map copied [] = copied
copy_map copied ((k, v) ∷ rules) = copy_map (put k v copied) rules

unfoldable pub update_deliberation_rules :
    String → Option (Map String String) → MemoryStore → Method (Unit {0})
unfolding on_deliberation write copy_map
update_deliberation_rules id rules m =
    let copied : Option (Map String String) = elim rules [
      | none ↦ none
      | some rs ↦ some (copy_map [] rs)
    ] in
    on_deliberation id (λ d m. (ok tt, write id (record d { rules = copied }) m)) m

unfoldable pub delete_deliberation : String → ℕ → MemoryStore → Method (Unit {0})
unfolding on_deliberation write mark_changed
delete_deliberation id now m =
    on_deliberation id
      (λ d m. (ok tt, mark_changed id now (write id (record d { status = "deleted" }) m))) m

unfoldable pub get_status_changed_at : String → MemoryStore → Outcome Error ℕ
get_status_changed_at id m = elim (get id m.status_changed) [
  | none ↦ err deliberation_not_found
  | some t ↦ ok t
]

unfoldable pub update_sub_status : String → String → MemoryStore → Method (Unit {0})
unfolding on_deliberation write
update_sub_status id sub_status m =
    on_deliberation id (λ d m. (ok tt, write id (record d { sub_status = sub_status }) m)) m

unfoldable pub try_set_analyzing : String → ℕ → MemoryStore → Method Bool
unfolding on_deliberation write mark_changed
try_set_analyzing id now m =
    on_deliberation id
      (λ d m.
        if not (str_eq d.status "open")
        then (ok false, m)
        else (ok true, mark_changed id now (write id (record d { status = "analyzing" }) m)))
      m

unfoldable pub advance_round : String → ℕ → MemoryStore → Method (Unit {0})
unfolding on_deliberation write mark_changed
advance_round id now m =
    on_deliberation id
      (λ d m. (
        ok tt,
        mark_changed id now
            (write id (record d { round = d.round + 1; status = "open"; sub_status = "" }) m),
      ))
      m
