-- ===== src/Lib.antt =====
-- cbrain: the control path of the cbrain agent runtime.
--
-- An agent's tool call becomes an `ActionIntent` (cbrain/contracts.py). `GovernedRuntime.execute`
-- (cbrain/runtime.py) hands it, with the tool's handler, to a gateway. The PrivateVault gateway
-- (cbrain/execution/gateway.py) plans the call, asks PrivateVault for a decision, has a permit
-- issued, verifies or claims it, dispatches the call through a transport, and verifies the witness
-- and the closure that come back. A claim verifies the permit and uses it up in a table with unique
-- constraints (cbrain/adapters/privatevault_claim.py, cbrain/consumption.py). A durable run
-- (cbrain/agent) keeps its state in a store with versions, writes a checkpoint before and after each
-- tool call, and claims the dispatch of a call before it executes it. Context for the model comes
-- from documents that are cut into chunks (cbrain/knowledge). A company's gateway
-- (cbrain/evaluation/company_gateway.py, cbrain/company/approval.py) holds calls that need a review
-- until a person with the right role has approved them, in memory or in a durable store
-- (cbrain/company/durable_approval.py). The simulators (cbrain/simulators) are target systems on which
-- scenarios run; each effect of theirs is stored under the idempotency key of its request.
--
-- The files:
--   Prelude: shared names; text by code points, results, dicts and lists.
--   Json: the JSON values that Python reads and writes.
--   Contracts: `GovernedExecution` and `ActionIntent` of cbrain/contracts.py with their checks;
--     Contracts/Validity: what the constructor of the first lets through.
--   Runtime: `execute`. A gateway is a tree of calls of the handler, so that every gateway, also one
--     that calls the handler often or never, is a value; the handler acts on a world.
--     Runtime/Calls: runs of such a tree; Runtime/Safety: the promises of the runtime.
--   Collaborators: what the gateway asks of others, and its small helpers.
--   Gateway: `decide_and_execute`, stage by stage, over the answers of its collaborators.
--     Gateway/Permit, Gateway/Evidence: what stands behind each result; Gateway/Entered and
--     Gateway/Candid: what each says of the handler; Gateway/Governed: the
--     runtime over this gateway; Gateway/InProcess: the transport of cbrain/execution/transport.py.
--   Consumption: the table of used authorizations with `is_consumed` and `claim_once`;
--     Consumption/Once: any claims in sequence. Consumption/Claim: `create_candidate`,
--     `verify_authorization` and `verify_and_claim`; Consumption/Claim/Sound and
--     Consumption/Claim/Exclusive: what a successful claim had, and that it is the only one.
--   Durable: `StoredRunRecord` and the checks on its fields. Durable/Store: `InMemoryRunStore`;
--     Durable/Claims: claims among any operations. Durable/Readers, Durable/Payload: `to_json` and
--     `from_mapping`; Durable/RoundTrip: their round trip. Durable/Resume: `resume_durable_run`
--     and what is reported of a run, with Durable/Resume/Outcomes. Durable/Checkpoint:
--     `persist_record`, `finalize_durable_record` and the checkpoints of the agent loop, with
--     Durable/Checkpoint/Lifecycle. Durable/Ending, Durable/Dispatch: `_persist_terminal`
--     of cbrain/agent/foundation.py, and `_execute_durable_tool` from the claim of a prepared call on;
--     Durable/Dispatch/Once: several workers; Durable/Dispatch/Continues: when a run goes on;
--     Durable/Dispatch/Keeps: what it leaves stored;
--     Durable/Restore: `restore_execution`. Durable/Sqlite: `SQLiteRunStore`;
--     Durable/Sqlite/Represent, Durable/Sqlite/Refines: that it answers as the store in memory.
--   Knowledge/Chunking: `normalize_text` and `split_chunks`; Knowledge/Chunking/Cover and
--     Knowledge/Chunking/Normal: what they give. Knowledge/Graph: `bounded_walk` of
--     cbrain/knowledge/graph.py; Knowledge/Graph/Trails, Knowledge/Graph/Bounded: that it ends, and
--     what it returns.
--   Models: messages, calls and their checks (cbrain/models/contracts.py); Models/History:
--     `validate_history`, and the histories that it lets through.
--   Agent: the run without a store, `_run_ephemeral` of cbrain/agent/foundation.py, over services that
--     act on a world; Agent/Turn: one turn, stage by stage; Agent/Run: the loop and what comes before
--     it; Agent/Sound, Agent/Whole, Agent/Bounded: what turns and runs keep; Agent/Counted: the calls
--     that a run makes.
--   Approvals: the roles and principals; Approvals/Inbox: `ApprovalInbox`; Approvals/Bounded:
--     `CompanyRiskGateway` and `ApprovalBoundedGateway`; Approvals/Once: operations of the inbox;
--     Approvals/Granted: what an approval that may be used has; Approvals/Reviewed and Approvals/Single: when, and how often, a reviewed call runs.
--   Reviews: the table of `DurableReviewStore` with `_load`, `_insert` and `_replace`;
--     Reviews/Expiry, Reviews/Methods, Reviews/Consume: its methods; Reviews/Moves: the state machine;
--     Reviews/Progress, Reviews/Calls, Reviews/Spent: what any calls do to the reviews.
--   Simulators: the errors, receipts and checks of cbrain/simulators/contracts.py; Simulators/Ledger:
--     the state of `LedgerSimulator`; Simulators/Ledger/Methods: its capabilities, as methods that give
--     the ledger back also when they raise; Simulators/Ledger/Execute: its `execute`;
--     Simulators/Ledger/Effects: what an idempotency key stands for; Simulators/Ledger/Sums,
--     Simulators/Ledger/Settled, Simulators/Ledger/Conserved: where the money goes.
--   Tests: concrete runs.
--
-- Bounds and fuel: numbers are natural numbers, as Python's integers have no bound; a float is kept
-- by its `repr`. The loop of `split_chunks` has fuel for one round for each character; as the overlap
-- is below the size, each round goes on by at least one character. The loop of `bounded_walk` has fuel
-- for each node that may be visited and each edge that it may put on the stack. The ledger's amounts
-- are counted in whole cents, as `_positive_money` gives them. SQLite's
-- INTEGER has 64 bits, and a number that is none raises. Concurrent
-- workers are sequences of operations: a store's method holds the lock, and a claim is one SQL
-- statement. A claim's lookup and its insertion see different tables.
--
-- Parameters: the collaborators of the gateway, the handler, Agent DNA's digest and verifier, the
-- reading and writing of messages, the text of an observation, the clocks and the arithmetic of
-- times, the validation of a company's call, the ledger's decimals and digests, and Python's conversion
-- of an integer to a float. They answer as they like.
--
-- Not modelled: HTTP clients and services, the planner, the models' adapters, retrieval, the rest of
-- the company package, procurement, the other simulators, computer use and evaluation; the deadline
-- of a durable run, a moment of the process's own clock; the text of JSON, of which the values are
-- kept; the bounds of Python's decimal context.
pub mod Prelude
pub mod Json
pub mod Contracts
pub mod Runtime
pub mod Collaborators
pub mod Gateway
pub mod Durable
pub mod Consumption
pub mod Approvals
pub mod Reviews
pub mod Knowledge
pub mod Models
pub mod Agent
pub mod Simulators
pub mod Tests
