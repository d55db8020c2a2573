-- ===== src/Lib.antt =====
-- Gemot, the verified part: the consensus core of the server, HotStuff-style Byzantine fault
-- tolerant replication of a deliberation's audit log (internal/bft), the store of its demo mode
-- (internal/store/memory.go), the cache that refuses replayed requests (internal/auth/replay.go)
-- and the limits on requests (internal/payments/ratelimit.go, internal/payments/sandbox_quota.go),
-- the credits that requests cost and their purchase (internal/payments/credits.go,
-- internal/payments/buycredits.go), the bytes that agents sign (internal/auth/signature.go), the
-- service that takes positions, votes, delegations and commitments
-- (internal/deliberation/service.go), and its event bus (internal/deliberation/events.go).
--
-- The program. A request passes a rate limiter and, if it is signed, the window of timestamps and
-- the cache of nonces. The service then works on deliberations, positions, votes and commitments in
-- a store: the MemoryStore in demo mode, one lock around some twenty maps. A Replica
-- (internal/bft/state.go) holds the protocol state: the current view, the highest, locked and
-- prepared QCs, the known and committed blocks, and two counters that guard it against double votes
-- and double proposals. Its handlers (internal/bft/protocol.go) take proposals, votes and NewView
-- messages from a Transport (internal/bft/transport.go), and write committed blocks to a LogStore
-- (internal/bft/log.go) and the counters to a VoteHistoryStore (internal/bft/votehistory.go). After
-- a crash, Replay (internal/bft/replay.go) rebuilds the committed chain from the log, and
-- RestoreVoteHistory the counters. The Engine (internal/bft/engine.go, internal/bft/bootstrap.go)
-- drives a cluster of one replica for the service.
--
-- The files, each with the code it models:
--   Prelude                library names, Boolean tests, list lemmas, maps, results with a panic
--   Auth/Replay            MemoryNonceCache, ValidateTimestamp
--   Auth/Nonces, Auth/Observed, Auth/Replays, Auth/Timestamps
--                          the bounded queue that the cache is, and proofs
--   Auth/Signature         the four signed payloads, Verify, ValidatePublicKey; its child has proofs
--   Payments/RateLimiter   RateLimiter: Allow, cleanup, Status; its children have the proofs
--   Payments/SandboxQuota  SandboxQuota: Allow, Refund; its child has the proofs
--   Payments/Credits       CreditStore, CreditCost, MPPPriceForModel
--   Payments/Credits/Statements
--                          the tables of internal/store/schema.sql that CreditStore works on
--   Payments/Credits/Purchases
--                          BuyCredits, lookupPack, decodeX402Nonce
--   Payments/Credits/Webhook
--                          WebhookHandler for a completed checkout session
--   Payments/Credits/Ledger, Payments/Credits/Settled, Payments/Credits/Bought,
--   Payments/Credits/Redelivered
--                          proofs
--   Memory/Records         types/types.go
--   Memory/State           MemoryStore, NewMemoryStore
--   Memory/Deliberations, Memory/Positions, Memory/Votes, Memory/Commitments, Memory/Analyses,
--   Memory/Access, Memory/Moderation, Memory/Jobs
--                          the methods of MemoryStore, by the data that they work on
--   Memory/Ballots, Memory/Codes, Memory/Starts, Memory/Running, Memory/Visibility
--                          proofs
--   Auth/Examples, Payments/Examples, Memory/Examples
--                          tests and runs at concrete inputs
--   Deliberation/Service   Service, orderAction, audit, emit, and what the service calls outside
--   Deliberation/Payloads  escapePipePart, splitEscapedPipe, GetTamperEvidentLog
--   Deliberation/Signing   the checks of signatures and credentials, agent keys
--   Deliberation/Positions SubmitPosition with its options, RuleInt, RuleBool, GetPositions
--   Deliberation/Voting    Vote, castVote, Delegate, RevokeDelegation, resolveDelegations
--   Deliberation/Commitments
--                          CheckParticipant, Commit, FulfillCommitment, BreakCommitment, DisputeCrux,
--                          WithdrawAgent, AgentReputation
--   Deliberation/Rollup    PrincipalRollup
--   Deliberation/Templates the table of templates, GetTemplate
--   Deliberation/Creation  CreateDeliberation and its options; its child has the proofs
--   Deliberation/Access    CheckAccess, CheckQuorum, CheckAnalysisPreconditions, SetTemplate,
--                          DeleteDeliberation, ReportAbuse, join codes, InviteAgent, share tokens,
--                          GetAgentVotes
--   Deliberation/Accesses  RecordAccess, CommitmentSignals
--   Deliberation/Recovery  CancelAnalysis, ResetAnalyzingStatus, RecoverStuck; its child has the
--                          proofs
--   Deliberation/EventBus  EventBus; its children have the proofs
--   Deliberation/Ordered/Effects
--                          what the ordered operations are to send to the log and do to the store
--   Deliberation/Resolution/Delegates
--                          where following delegations is to lead
--   the rest of Deliberation/Ordered and Deliberation/Resolution, Deliberation/Delegations,
--   Deliberation/Withdrawal, Deliberation/Payloads/RoundTrip, Deliberation/Rollup/Agreed
--                          proofs
--   Deliberation/Examples, Deliberation/Recovery/Examples, Deliberation/EventBus/Examples,
--   Payments/Credits/Examples
--                          tests and runs at concrete inputs
--   Bft/Types              types.go, the messages of transport.go, the interfaces of signature.go,
--                          log.go and votehistory.go as records of functions (Platform)
--   Bft/Encoding           Block.Hash, digestFor and the three digests, as byte lists
--   Bft/Stores             InMemoryLogStore, InMemoryVoteHistoryStore, InMemoryTransport
--   Bft/Replica            Replica, NewReplica, Quorum, leader, RestoreVoteHistory
--   Bft/Chain              Replica.extends
--   Bft/Justify            verifyQC, safeProposal, processJustify, commitBlock
--   Bft/Proposals          HandleProposal, Propose
--   Bft/Votes              HandleVote
--   Bft/Views              AdvanceView, Timeout, HandleNewView
--   Bft/Replay             Replay
--   Bft/Engine             Engine, submitOnce, submitLocked, resyncFromLog, buildSingleNodeReplica
--   Bft/Events             a life of a replica: the calls it gets, one after the other, and crashes
--   Bft/Events/..., Bft/Chain/Ancestry, Bft/Stores/Appends, Bft/Encoding/Injective,
--   Bft/Views/Selection, Bft/Leader, Bft/Quorum
--                          proofs
--   Bft/Examples           tests and runs on concrete replicas
--
-- How code becomes definitions. A method that changes a replica takes the replica last and returns
-- the new one with an outcome, which is a value, one of the errors of protocol.go, or a panic; the
-- replica that comes with an error keeps what the method had changed before it. Methods run one
-- after the other, as the mutex of the engine or the caller's single goroutine has it. Maps are
-- association lists, where Go's order of iteration is the order of insertion. In the store, a loop
-- that deletes or writes through pointers while it iterates is a pass over the list. sort.Slice is
-- an insertion sort that keeps equal items in order. A clock reading and a new identifier are
-- arguments of the methods that read the clock or make one; a time is a natural number with 0 for
-- the zero time, a float64 its 64 bits, and a value of type any its JSON text. A hash is a natural
-- number below 2^256, its 32 bytes read as one number. A uint64 is a natural number whose additions
-- wrap at 2^64, and int(v-1) in leader is negative from 2^63 on.
--
-- A method of the service takes the service, which is the memory store, the log, and what was
-- audited and emitted, and returns it with an outcome; what was done before an error stays. All
-- clock readings of one call are one argument. A text of the ordered log is the list of its runes,
-- as of valid UTF-8, and lengths and signed bytes are those of its UTF-8.
--
-- Bounds and fuel. extends walks parent pointers without a bound in Go; here its fuel is the number
-- of known blocks plus one, which is enough for every walk that ends, since each step then uses up
-- a block; where parents run in a cycle that the walk does not leave, Go's loop goes on for ever
-- and the model answers false. submitLocked makes at most four attempts, as in Go, and resolve, the
-- walk along delegations, five steps.
--
-- The tables of the credit store are maps by their primary key, and a SQL statement is a function
-- on them that the unique index on sessions and the range of INTEGER can refuse. A method of the
-- event bus holds its lock throughout, so a history of the bus is a sequence of calls.
--
-- Parameters. The payment gate, strings.EqualFold, strings.TrimSpace, the Base64 and JSON of a
-- payment credential and the decimal numbers of Sprintf are arguments of the purchases. The
-- engine's Submit, Ed25519, the sanitizer's regular expressions, the content classifier, the
-- verifier of credentials, the JSON decoder and the dynamic types of rule values are arguments of
-- the service, with no assumption on them. SHA-256 and the BLS signer (internal/bft/bls_signer.go
-- calls a curve library) are arguments; no theorem assumes anything about them beyond the results
-- it names. The durable stores are arguments too; what the theorems on lives need of a vote history
-- is HistoryLaws, that a load gives at least what was saved and keeps what other saves wrote, which
-- the in-memory store satisfies. Theorems on the committed log are about the in-memory log.
--
-- Not modelled: the curve arithmetic and key files (internal/bft/bls_signer.go,
-- internal/bft/keystore.go), the Postgres stores (the rest of internal/store), the capacity of
-- channels, negative n and f, negative rounds and limits, the headers that the rate limiter sets,
-- and the parts of the server around them, which are HTTP handlers, calls of a language model and
-- floating-point analysis; of payments, the Stripe and x402 protocols, the pages, lost database
-- connections and negative amounts; of the service, resolution, compromises, drift and analysis,
-- the goroutines that it cancels, and the methods that only pass a call on to the store; of the
-- event bus, what a panic leaves and the optional payload of an event.
pub mod Prelude
pub mod Bft
pub mod Memory
pub mod Auth
pub mod Payments
pub mod Deliberation
