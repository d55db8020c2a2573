-- ===== src/Bft/Events/Synced.antt =====
-- The committed log in memory and the durable log agree, and a restart finds what was committed.
use gemot.Prelude.{
  ℕ, suc, ◌≡◌, ◌⊎◌, inl, inr, sym, ap, ◌∙◌, Bool, true, some, List, [], ◌∷◌, ◌++◌, map, Map,
  nat_key, get, put, get_elem?, All, All-append, arith, Bool-cases, ◌==◌, ◌≢◌, zero, not, ◌&&◌,
  get-put, ◌-◌, Option-cases,
}
use gemot.Prelude.Outcomes.{ok, Outcome-cases}
use gemot.Bft.Types.{Qc, Block, LogEntry, genesis_hash, is_genesis, succ64}
use gemot.Bft.Encoding.{block_hash}
use gemot.Bft.Stores.{InMemoryLog, InMemoryVoteHistory, in_memory, append}
use gemot.Bft.Stores.Appends.{Numbered, append_cases, append-Numbered}
use gemot.Bft.Replica.{Replica}
use gemot.Bft.Justify.{
  commit_block, process_justify, committed_already, lock_and_commit, raise_lock, raise_high_qc,
  parent_qc,
}
use mathlib.Core.List.{map-append}

abbrev pub hashes : (List ℕ → ℕ) → InMemoryLog → List ℕ
hashes sha256 = map λ e. block_hash sha256 e.block

abbrev pub Node : Type 0
Node = Replica InMemoryLog InMemoryVoteHistory

-- The committed log is genesis and then the blocks of the durable log, all marked as committed.
pub record IsSynced (sha256 : List ℕ → ℕ) (r : Node) : Type 0 where
  pub entries : InMemoryLog
  pub attached : r.log ≡ some entries
  pub numbered : Numbered 0 entries
  pub logged : r.committed_log ≡ genesis_hash ∷ hashes sha256 entries
  pub marked : All (λ e. get (block_hash sha256 e.block) r.committed ≡ some true) entries

-- The committed state is the same.
pub record SameLog (r s : Node) : Type 0 where
  pub log : s.log ≡ r.log
  pub committed : s.committed ≡ r.committed
  pub committed_log : s.committed_log ≡ r.committed_log

module _ (sha256 : List ℕ → ℕ) where
  pub SameLog-IsSynced : (r s : Node) → SameLog r s → IsSynced sha256 r → IsSynced sha256 s
  SameLog-IsSynced r s h v = record {
    entries = v.entries;
    attached = h.log ∙ v.attached;
    numbered = v.numbered;
    logged = h.committed_log ∙ v.logged;
    marked = rw h.committed v.marked;
  }

  -- A commit leaves the committed state alone, or logs a block that was not committed.
  commit_block_effect :
      (b : Block) (qc : Qc) (r : Node) (es : InMemoryLog)
      → r.log ≡ some es
      → let r' = (commit_block (in_memory sha256) b qc r).1 in
        SameLog r r'
        ⊎ ((es' : InMemoryLog) × (append sha256 (record { block = b; qc = qc }) es ≡ ok es')
            × (get (block_hash sha256 b) r.committed ≢ some true)
            × (r'.log ≡ some es')
            × (r'.committed ≡ put (block_hash sha256 b) true r.committed)
            × (r'.committed_log ≡ r.committed_log ++ (block_hash sha256 b ∷ [])))
  unfolding commit_block in_memory
  commit_block_effect b qc r es h =
      let hash = block_hash sha256 b in
      elim (Bool-cases (committed_already r hash)) [
        | inl done ↦ inl (ground arith)
        | inr new ↦
            elim (Bool-cases
              (not (b.parent == genesis_hash) && not (committed_already r b.parent))) [
                | inl gap ↦ inl (ground arith)
                | inr fits ↦
                    elim (Outcome-cases (append sha256 (record { block = b; qc = qc }) es)) [
                      | inl (es', q) ↦
                          inr (es', q, λ m. ground arith, ground arith, ground arith, ground arith)
                      | inr (inl (e, q)) ↦ inl (ground arith)
                      | inr (inr q) ↦ inl (ground arith)
                    ]
              ]
      ]

  -- A block in the log is marked, so an append that finds its block there is not reached.
  entry-marked :
      (es : InMemoryLog) (committed : Map ℕ Bool) (i : ℕ) (old : LogEntry)
      → All (λ e. get (block_hash sha256 e.block) committed ≡ some true) es
      → get_elem? es i ≡ some old
      → get (block_hash sha256 old.block) committed ≡ some true
  entry-marked [] committed i old m e = ground arith
  entry-marked (d ∷ es) committed zero old m e = ground arith
  entry-marked (d ∷ es) committed (suc i) old m e = entry-marked es committed i old m.1 e

  marked-put :
      (es : InMemoryLog) (committed : Map ℕ Bool) (h : ℕ)
      → All (λ e. get (block_hash sha256 e.block) committed ≡ some true) es
      → All (λ e. get (block_hash sha256 e.block) (put h true committed) ≡ some true) es
  marked-put [] committed h m = tt
  marked-put (d ∷ es) committed h m = (
    ground (arith, m.0, get-put h (block_hash sha256 d.block) true committed),
    marked-put es committed h m.1,
  )

  commit_block-IsSynced :
      (b : Block) (qc : Qc) (r : Node)
      → IsSynced sha256 r
      → IsSynced sha256 (commit_block (in_memory sha256) b qc r).1
  commit_block-IsSynced b qc r v = elim (commit_block_effect b qc r v.entries v.attached) [
    | inl same ↦ SameLog-IsSynced r _ same v
    | inr (es', q, new, l, c, cl) ↦
        elim (append_cases sha256 (record { block = b; qc = qc }) v.entries es' q) [
          | inl (grown, _, _) ↦ record {
            entries = es';
            attached = l;
            numbered =
                append-Numbered sha256 (record { block = b; qc = qc }) v.entries es' v.numbered q;
            logged =
                rw (cl, v.logged, grown)
                  (ap (λ l. genesis_hash ∷ l)
                    (sym (map-append (λ (e : LogEntry). block_hash sha256 e.block) v.entries _)));
            marked =
                rw (c, grown)
                  (All-append _ v.entries _
                    (marked-put v.entries r.committed (block_hash sha256 b) v.marked)
                    (
                      ground (
                        arith,
                        get-put (block_hash sha256 b) (block_hash sha256 b) true r.committed,
                      ),
                      tt,
                    ));
          }
          | inr (_, (old, found, same)) ↦ absurd (
              new (
                rw (← same) (entry-marked v.entries r.committed (b.height - 1) old v.marked found)))
        ]
  ]

  -- The lock and the high QC are no part of the committed state.
  lock_and_commit-IsSynced :
      (b : Block) (r : Node)
      → IsSynced sha256 r
      → IsSynced sha256 (lock_and_commit (in_memory sha256) b r).1
  unfolding lock_and_commit
  lock_and_commit-IsSynced b r v = elim (Option-cases (get b.parent r.known_blocks)) [
    | inl out ↦ rw (out, lock_and_commit) v
    | inr (parent, e) ↦
        let r' = raise_lock (parent_qc parent b.parent) r in
        let v' : IsSynced sha256 r' =
          SameLog-IsSynced r r'
            (record { log = ground arith; committed = ground arith; committed_log = ground arith })
            v in
        elim (Bool-cases (b.view == succ64 parent.view)) [
          | inl next ↦ rw (e, next, lock_and_commit) (commit_block-IsSynced parent b.justify r' v')
          | inr gap ↦ rw (e, gap, lock_and_commit) v'
        ]
  ]

  pub process_justify-IsSynced :
      (qc : Qc) (r : Node)
      → IsSynced sha256 r
      → IsSynced sha256 (process_justify (in_memory sha256) qc r).1
  unfolding process_justify
  process_justify-IsSynced qc r v = elim (Bool-cases (is_genesis qc)) [
    | inl g ↦ rw (g, process_justify) v
    | inr ng ↦
        let r' = raise_high_qc qc r in
        let v' : IsSynced sha256 r' =
          SameLog-IsSynced r r'
            (record { log = ground arith; committed = ground arith; committed_log = ground arith })
            v in
        elim (Option-cases (get qc.block_hash r.known_blocks)) [
          | inl out ↦ rw (ng, out, process_justify) v'
          | inr (b, e) ↦ rw (ng, e, process_justify) (lock_and_commit-IsSynced b r' v')
        ]
  ]
