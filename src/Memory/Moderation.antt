-- ===== src/Memory/Moderation.antt =====
-- internal/store/memory.go: disputes, abuse reports, context accesses, agent keys and the audit log.
use gemot.Prelude.{
  ℕ, zero, suc, ◌/◌, ◌%◌, Bool, true, false, not, ◌&&◌, ◌||◌, none, some, List, [], ◌∷◌, ◌++◌, Map,
  String, str_eq, join, string_key, get, get_elem?, put, select, length, ltb, ◌==◌, if◌then◌else◌,
}
use gemot.Prelude.Outcomes.{Outcome, ok, err}
use gemot.Prelude.Sorting.{sort_by}
use gemot.Memory.Records.{Dispute}
use gemot.Memory.State.{
  MemoryStore, AgentKey, AuditEntry, Error, Method, no_active_agent_key, agent_key_not_found,
  or_default, or_now,
}

unfoldable pub create_dispute : String → ℕ → Dispute → MemoryStore → Method Dispute
create_dispute fresh now d m =
    let d' = record d { id = or_default fresh d.id; created_at = or_now now d.created_at } in
    (ok d', record m { disputes = put d'.id d' m.disputes })

unfoldable pub get_disputes : String → MemoryStore → List Dispute
unfolding sort_by
get_disputes id m =
    sort_by (λ a b. ltb a.created_at b.created_at)
      (select (λ d. str_eq d.deliberation_id id) m.disputes)

unfoldable pub processed : String → MemoryStore → Bool
processed id m = elim (get id m.dispute_processed) [ none ↦ false | some _ ↦ true ]

unfoldable pub get_unprocessed_disputes : String → MemoryStore → List Dispute
unfolding sort_by processed
get_unprocessed_disputes id m =
    sort_by (λ a b. ltb a.created_at b.created_at)
      (select (λ d. str_eq d.deliberation_id id && not (processed d.id m)) m.disputes)

-- The loop of MarkDisputesProcessed.
unfoldable pub mark_all : ℕ → List String → Map String ℕ → Map String ℕ
mark_all now [] done = done
mark_all now (id ∷ ids) done = mark_all now ids (put id now done)

unfoldable pub mark_disputes_processed : List String → ℕ → MemoryStore → MemoryStore
unfolding mark_all
mark_disputes_processed ids now m = record m {
  dispute_processed = mark_all now ids m.dispute_processed;
}

unfoldable pub create_abuse_report : String → String → String → ℕ → MemoryStore → MemoryStore
create_abuse_report id reporter reason now m = record m {
  abuse_reports =
      m.abuse_reports
      ++ (record {
        deliberation_id = id;
        reporter_key = reporter;
        reason = reason;
        created_at = now;
      }
          ∷ []);
}

unfoldable pub digit : ℕ → String
digit n =
    elim (get_elem? {A = String} ("0" ∷ "1" ∷ "2" ∷ "3" ∷ "4" ∷ "5" ∷ "6" ∷ "7" ∷ "8" ∷ "9" ∷ [])
      n) [ none ↦ "" | some d ↦ d ]

-- fmt's %d, with a digit for each unit of fuel: n digits and one are enough for n.
unfoldable pub decimal : ℕ → ℕ → String
unfolding digit
decimal zero n = ""
decimal (suc fuel) n =
    let rest = decimal fuel (n / 10) in if ltb n 10 then digit n else join rest (digit (n % 10))

-- fmt.Sprintf("%s|%s|%d", id, agent, round)
unfoldable pub context_key : String → String → ℕ → String
unfolding decimal
context_key id agent round = join id (join "|" (join agent (join "|" (decimal (suc round) round))))

unfoldable pub record_context_access : String → String → ℕ → MemoryStore → MemoryStore
unfolding context_key
record_context_access id agent round m = record m {
  context_access = put (context_key id agent round) true m.context_access;
}

unfoldable pub has_context_access : String → String → ℕ → MemoryStore → Bool
unfolding context_key
has_context_access id agent round m = elim (get (context_key id agent round) m.context_access) [
  | none ↦ false
  | some b ↦ b
]

unfoldable pub register_agent_key : String → List ℕ → String → MemoryStore → MemoryStore
register_agent_key agent public_key algo m =
    let key : AgentKey = record { public_key = public_key; algo = algo; active = true } in
    record m { agent_keys = put agent key m.agent_keys }

unfoldable pub get_active_agent_key : String → MemoryStore → Outcome Error (List ℕ × String)
get_active_agent_key agent m = elim (get agent m.agent_keys) [
  | none ↦ err no_active_agent_key
  | some k ↦ if k.active then ok (k.public_key, k.algo) else err no_active_agent_key
]

unfoldable pub revoke_agent_key : String → MemoryStore → Method (Unit {0})
revoke_agent_key agent m = elim (get agent m.agent_keys) [
  | none ↦ (err agent_key_not_found, m)
  | some k ↦ (ok tt, record m { agent_keys = put agent (record k { active = false }) m.agent_keys })
]

unfoldable pub log_audit_event :
    String → String → String → String → String → ℕ → MemoryStore → MemoryStore
log_audit_event key ip method id agent now m = record m {
  audit_log =
      m.audit_log
      ++ (record {
        key_id = key;
        ip = ip;
        method = method;
        deliberation_id = id;
        agent_id = agent;
        created_at = now;
      }
          ∷ []);
}

-- The loop of GetAuditLog from the index i - 1 down to 0; out is kept in the order of its appends.
unfoldable pub scan_audit : String → ℕ → List AuditEntry → ℕ → List AuditEntry → List AuditEntry
scan_audit id limit log zero out = out
scan_audit id limit log (suc i) out = elim (limit == 0 || ltb (length out) limit) [
  | false ↦ out
  | true ↦ elim (get_elem? log i) [
    | none ↦ out
    | some e ↦
        scan_audit id limit log i (if str_eq e.deliberation_id id then out ++ (e ∷ []) else out)
  ]
]

-- The entries stand for the maps of their fields' texts.
unfoldable pub get_audit_log : String → ℕ → MemoryStore → List AuditEntry
unfolding scan_audit
get_audit_log id limit m = scan_audit id limit m.audit_log (length m.audit_log) []
