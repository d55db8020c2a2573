-- ===== src/Deliberation/Payloads/RoundTrip.antt =====
-- What orderAction writes, splitEscapedPipe reads back.
use mathlib.Core.List.{append_assoc, append-nil}
use gemot.Prelude.{ℕ, ◌≡◌, refl, ap, ◌∙◌, false, List, [], ◌∷◌, ◌++◌, arith}
use gemot.Deliberation.Payloads.{
  replace_all, escape_pipe_part, split_runes, split_escaped_pipe, append_parts, payload_of, pipe,
}

-- A part in front of other text is read as it was before it was escaped.
split_runes-escape :
    (parts : List (List ℕ)) (cur s rest : List ℕ)
    → split_runes parts cur false (escape_pipe_part s ++ rest)
      ≡ split_runes parts (cur ++ s) false rest
unfolding escape_pipe_part replace_all split_runes
split_runes-escape parts cur [] rest = rw append-nil
split_runes-escape parts cur (r ∷ s) rest =
    ground (arith, split_runes-escape parts (cur ++ (r ∷ [])) s rest, append_assoc cur (r ∷ []) s)

-- The text that the loop appends.
after : List (List ℕ) → List ℕ
after [] = []
after (p ∷ parts) = pipe ∷ (escape_pipe_part p ++ after parts)

append_parts-after :
    (payload : List ℕ) (parts : List (List ℕ)) → append_parts payload parts ≡ payload ++ after parts
unfolding append_parts after
append_parts-after payload [] = rw append-nil
append_parts-after payload (p ∷ parts) =
    append_parts-after (payload ++ (pipe ∷ escape_pipe_part p)) parts
    ∙ append_assoc payload (pipe ∷ escape_pipe_part p) (after parts)

split_runes-after :
    (done : List (List ℕ)) (cur : List ℕ) (parts : List (List ℕ))
    → split_runes done cur false (after parts) ≡ done ++ (cur ∷ parts)
unfolding split_runes after
split_runes-after done cur [] = refl
split_runes-after done cur (p ∷ parts) =
    split_runes-escape (done ++ (cur ∷ [])) [] p (after parts)
    ∙ split_runes-after (done ++ (cur ∷ [])) p parts
    ∙ append_assoc done (cur ∷ []) (p ∷ parts)

-- Whatever runes the action type and the fields hold, backslashes and pipes included, the payload
-- that orderAction writes is split back into the action type and exactly those fields.
pub split_escaped_pipe-payload_of :
    (op_type : List ℕ) (parts : List (List ℕ))
    → split_escaped_pipe (payload_of op_type parts) ≡ op_type ∷ parts
unfolding split_escaped_pipe payload_of
split_escaped_pipe-payload_of op_type parts =
    ap (split_runes [] [] false) (append_parts-after (escape_pipe_part op_type) parts)
    ∙ split_runes-escape [] [] op_type (after parts)
    ∙ split_runes-after [] op_type parts
