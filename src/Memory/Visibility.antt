-- ===== src/Memory/Visibility.antt =====
-- CheckACL and the predicate of the list methods.
use gemot.Prelude.{◌≡◌, ◌≢◌, true, some, String, string_key, get, arith}
use text.Mathlib.TextEquality.{eq_iff}
use gemot.Prelude.Outcomes.{ok}
use gemot.Memory.Records.{Deliberation}
use gemot.Memory.State.{MemoryStore}
use gemot.Memory.Deliberations.{listable, is_open}
use gemot.Memory.Access.{check_acl}

-- For a key that is not empty, CheckACL lets in exactly those that the list methods show a
-- deliberation to, where the deliberation stands under its own id.
pub check_acl-listable :
    (id key : String) (d : Deliberation) (m : MemoryStore)
    → get id m.deliberations ≡ some d
    → d.id ≡ id
    → key ≢ ""
    → check_acl id key m ≡ ok (listable m key d)
unfolding check_acl listable
check_acl-listable id key d m found own named = ground (arith, eq_iff key "")

-- With the empty key, CheckACL lets the caller into every deliberation that has no creator key,
-- while the list methods show only the open ones.
pub check_acl-empty_key :
    (id : String) (d : Deliberation) (m : MemoryStore)
    → get id m.deliberations ≡ some d
    → d.creator_key ≡ ""
    → (check_acl id "" m ≡ ok true) × (listable m "" d ≡ is_open d)
unfolding check_acl listable
check_acl-empty_key id d m found own = ground (arith, eq_iff d.creator_key "", eq_iff "" "")
