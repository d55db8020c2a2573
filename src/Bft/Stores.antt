-- ===== src/Bft/Stores.antt =====
-- InMemoryLogStore of log.go, InMemoryVoteHistoryStore of votehistory.go, and InMemoryTransport of
-- transport.go. A channel is the list of the messages in it, oldest first; the bound of its buffer,
-- at which a sender waits, is left out.
pub mod Appends
use gemot.Prelude.{
  ℕ, ◌-◌, ◌^◌, Option, none, some, List, [], ◌∷◌, ◌++◌, map, length, get_elem?, Map, nat_key, get,
  put, ltb, ◌==◌, if◌then◌else◌,
}
use gemot.Prelude.Outcomes.{Outcome, ok, err, panic}
use gemot.Bft.Types.{
  LogEntry, Platform, Message, Error, log_refuses_genesis, log_fork_detected, log_gap,
  history_regression, no_peer,
}
use gemot.Bft.Encoding.{block_hash}

-- The entries of the log; height 1 is the first.
abbrev pub InMemoryLog : Type 0
InMemoryLog = List LogEntry

same_entry : (List ℕ → ℕ) → LogEntry → InMemoryLog → Option LogEntry → Outcome Error InMemoryLog
same_entry sha256 entry entries none = err log_gap
same_entry sha256 entry entries (some existing) =
    if block_hash sha256 existing.block == block_hash sha256 entry.block
    then ok entries
    else err log_fork_detected

-- The conversion int(Height-1) is negative from height 2 ^ 63 + 1 on, where entries[idx] panics; else
-- entries[idx] is there whenever idx < len(entries).
unfoldable pub append : (List ℕ → ℕ) → LogEntry → InMemoryLog → Outcome Error InMemoryLog
unfolding same_entry
append sha256 entry entries =
    let idx = entry.block.height - 1 in
    if entry.block.height == 0
    then err log_refuses_genesis
    else if ltb (2 ^ 63) entry.block.height
    then panic
    else if ltb idx (length entries)
    then same_entry sha256 entry entries (get_elem? entries idx)
    else if ltb (length entries) idx
    then err log_gap
    else ok (entries ++ (entry ∷ []))

unfoldable pub load : InMemoryLog → Outcome Error (List LogEntry)
load entries = ok entries

-- The height of the last entry, which is 0 for the empty log.
last_height : ℕ → InMemoryLog → ℕ
last_height h [] = h
last_height h (e ∷ entries) = last_height e.block.height entries

unfoldable pub highest_height : InMemoryLog → Outcome Error ℕ
unfolding last_height
highest_height entries = ok (last_height 0 entries)

pub record InMemoryVoteHistory : Type 0 where
  pub last_voted : ℕ
  pub last_proposed : ℕ

unfoldable pub save_vote : ℕ → InMemoryVoteHistory → Outcome Error InMemoryVoteHistory
save_vote v s =
    if ltb v s.last_voted then err history_regression else ok (record s { last_voted = v })

unfoldable pub save_proposal : ℕ → InMemoryVoteHistory → Outcome Error InMemoryVoteHistory
save_proposal v s =
    if ltb v s.last_proposed then err history_regression else ok (record s { last_proposed = v })

unfoldable pub load_history : InMemoryVoteHistory → Outcome Error (ℕ × ℕ)
load_history s = ok (s.last_voted, s.last_proposed)

-- A platform with the in-memory stores.
unfoldable pub in_memory : (List ℕ → ℕ) → Platform InMemoryLog InMemoryVoteHistory
in_memory sha256 = record {
  sha256 = sha256;
  log = record { append = append sha256; load = load; highest_height = highest_height };
  history = record { save_vote = save_vote; save_proposal = save_proposal; load = load_history };
}

-- One replica's transport: the inboxes of its peers, itself among them.
pub record Transport : Type 0 where
  pub self : ℕ
  pub peers : Map ℕ (List Message)

deliver : Message → List Message → List Message
deliver msg inbox = inbox ++ (msg ∷ [])

unfoldable pub send : ℕ → Message → Transport → Outcome Error Transport
unfolding deliver
send to msg t = elim (get to t.peers) [
  | none ↦ err no_peer
  | some inbox ↦ ok (record t { peers = put to (deliver msg inbox) t.peers })
]

unfoldable pub broadcast : Message → Transport → Transport
unfolding deliver
broadcast msg t = record t { peers = map (λ p. (p.0, deliver msg p.1)) t.peers }

take_message : Transport → Option (List Message) → Option (Message × Transport)
take_message t none = none
take_message t (some []) = none
take_message t (some (msg ∷ rest)) = some (msg, record t { peers = put t.self rest t.peers })

-- A receive from Recv(); none where the channel holds nothing and the caller waits.
unfoldable pub recv : Transport → Option (Message × Transport)
unfolding take_message
recv t = take_message t (get t.self t.peers)

unfoldable pub new_in_memory_network : List ℕ → ℕ → Transport
new_in_memory_network roster self = record { self = self; peers = map (λ id. (id, [])) roster }
