-- ===== src/Deliberation/Payloads.antt =====
-- internal/deliberation/service.go: the payloads of the tamper-evident log, as orderAction writes
-- them and GetTamperEvidentLog parses them back. A text is the list of its code points, as of a
-- string that is valid UTF-8.
pub mod RoundTrip
use gemot.Prelude.{ℕ, Bool, true, false, ◌&&◌, List, [], ◌∷◌, ◌++◌, ◌==◌, if◌then◌else◌}
use gemot.Bft.Types.{Block, Qc, LogEntry}
use gemot.Bft.Encoding.{block_hash}

-- s == t
unfoldable pub same_runes : List ℕ → List ℕ → Bool
same_runes [] [] = true
same_runes [] (b ∷ t) = false
same_runes (a ∷ s) [] = false
same_runes (a ∷ s) (b ∷ t) = (a == b) && same_runes s t

abbrev pub backslash : ℕ
backslash = 92

abbrev pub pipe : ℕ
pipe = 124

-- strings.ReplaceAll, for a text of one rune.
unfoldable pub replace_all : ℕ → List ℕ → List ℕ → List ℕ
replace_all old new [] = []
replace_all old new (r ∷ s) = (if r == old then new else r ∷ []) ++ replace_all old new s

unfoldable pub escape_pipe_part : List ℕ → List ℕ
unfolding replace_all
escape_pipe_part s =
    replace_all pipe (backslash ∷ (pipe ∷ []))
      (replace_all backslash (backslash ∷ (backslash ∷ [])) s)

-- The loop of splitEscapedPipe over the runes: parts, cur and escaped.
unfoldable pub split_runes : List (List ℕ) → List ℕ → Bool → List ℕ → List (List ℕ)
split_runes parts cur escaped [] = parts ++ (cur ∷ [])
split_runes parts cur true (r ∷ s) = split_runes parts (cur ++ (r ∷ [])) false s
split_runes parts cur false (r ∷ s) =
    split_runes (if r == pipe then parts ++ (cur ∷ []) else parts)
      (if r == backslash then cur else if r == pipe then [] else cur ++ (r ∷ [])) (r == backslash) s

unfoldable pub split_escaped_pipe : List ℕ → List (List ℕ)
unfolding split_runes
split_escaped_pipe s = split_runes [] [] false s

-- The loop of orderAction that appends the parts.
unfoldable pub append_parts : List ℕ → List (List ℕ) → List ℕ
unfolding escape_pipe_part
append_parts payload [] = payload
append_parts payload (p ∷ parts) = append_parts (payload ++ (pipe ∷ escape_pipe_part p)) parts

unfoldable pub payload_of : List ℕ → List (List ℕ) → List ℕ
unfolding append_parts
payload_of op_type parts = append_parts (escape_pipe_part op_type) parts

pub record AuditLogEntry : Type 0 where
  pub height : ℕ
  pub view : ℕ
  pub action_type : List ℕ
  pub agent_id : List ℕ
  pub block_hash : ℕ
  pub proof : Qc

module _ (sha256 : List ℕ → ℕ) where
  -- The fields after the first three are not read. The hash is whole, where Go prints its first
  -- eight bytes, and the proof is the QC, where Go has its JSON text.
  unfoldable pub parse_entry : List ℕ → LogEntry → List (List ℕ) → List AuditLogEntry
  parse_entry id e (action_type ∷ (deliberation_id ∷ (agent_id ∷ more))) =
      if same_runes deliberation_id id
      then record {
        height = e.block.height;
        view = e.block.view;
        action_type = action_type;
        agent_id = agent_id;
        block_hash = block_hash sha256 e.block;
        proof = e.qc;
      }
        ∷ []
      else []
  parse_entry id e parts = []

  unfoldable pub get_tamper_evident_log : List ℕ → List LogEntry → List AuditLogEntry
  unfolding parse_entry split_escaped_pipe
  get_tamper_evident_log id [] = []
  get_tamper_evident_log id (e ∷ entries) =
      parse_entry id e (split_escaped_pipe e.block.payload) ++ get_tamper_evident_log id entries
