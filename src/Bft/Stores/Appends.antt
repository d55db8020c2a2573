-- ===== src/Bft/Stores/Appends.antt =====
-- The in-memory log holds the heights 1, 2, ... in order, and an append never rewrites one.
use gemot.Prelude.{
  ℕ, suc, ◌+◌, ◌-◌, ◌^◌, ◌≤◌, ◌≡◌, ◌⊎◌, inl, inr, some, List, [], ◌∷◌, ◌++◌, length, get_elem?,
  arith, Bool-cases, Option-cases, ltb,
}
use gemot.Prelude.Outcomes.{ok}
use gemot.Bft.Types.{LogEntry}
use gemot.Bft.Encoding.{block_hash}
use gemot.Bft.Stores.{InMemoryLog, append}

-- The first entry has the height after i, and each other one the next height.
abbrev pub Numbered : ℕ → InMemoryLog → Type 0
Numbered i [] = i ≤ 2 ^ 63
Numbered i (e ∷ es) = (e.block.height ≡ suc i) × Numbered (suc i) es

pub Numbered-snoc :
    (i : ℕ) (es : InMemoryLog) (e : LogEntry)
    → Numbered i es
    → e.block.height ≡ suc (i + length es)
    → e.block.height ≤ 2 ^ 63
    → Numbered i (es ++ (e ∷ []))
Numbered-snoc i [] e n h b = (omega arith, omega arith)
Numbered-snoc i (d ∷ es) e n h b = (n.0, Numbered-snoc (suc i) es e n.1 (omega arith) b)

-- An append that succeeds adds the entry at the next height, or finds the same block at its height
-- and changes nothing.
pub append_cases :
    (sha256 : List ℕ → ℕ) (e : LogEntry) (es es' : InMemoryLog)
    → append sha256 e es ≡ ok es'
    → ((es' ≡ es ++ (e ∷ [])) × (e.block.height ≡ suc (length es)) × (e.block.height ≤ 2 ^ 63))
      ⊎ ((es' ≡ es)
          × ((old : LogEntry) × (get_elem? es (e.block.height - 1) ≡ some old)
              × (block_hash sha256 old.block ≡ block_hash sha256 e.block)))
unfolding append
append_cases sha256 e es es' h = elim (Option-cases (get_elem? es (e.block.height - 1))) [
  | inl out ↦ inl (ground arith, ground arith, ground arith)
  | inr (old, found) ↦ elim (Bool-cases (ltb (e.block.height - 1) (length es))) [
    | inl short ↦ inr (ground arith, (old, found, ground arith))
    | inr long ↦ inl (ground arith, ground arith, ground arith)
  ]
]

-- Appending to a numbered log leaves a numbered log.
pub append-Numbered :
    (sha256 : List ℕ → ℕ) (e : LogEntry) (es es' : InMemoryLog)
    → Numbered 0 es
    → append sha256 e es ≡ ok es'
    → Numbered 0 es'
append-Numbered sha256 e es es' n h = elim (append_cases sha256 e es es' h) [
  | inl (q, k, b) ↦ rw q (Numbered-snoc 0 es e n (omega arith) b)
  | inr (q, _) ↦ rw q n
]
