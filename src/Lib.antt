-- ===== src/Lib.antt =====
-- A model of Birdbox, the controller that configures BIRD routers through agents on their nodes, and
-- what is proved of it.
--
-- The parts, and how they interact. Each node runs an agent, which registers with the controller and
-- asks it for tasks by long polls; the rest of the controller sends a node a task and gets a promise
-- of its result. The broker stands between the two. Before a configuration goes out, the inventory
-- of resources is validated: a resource may refer to others by name, and the graph of these
-- references is checked against the nodes on which the resources stand. The administrator's password
-- and sessions are a store of their own. A change of the inventory is deployed to the nodes that it
-- touches, under a journal that is kept in the database until all is done or taken back.
--
-- Broker (src/agent-broker.ts, src/agent-protocol.ts): State has the data, a `Broker` being the
-- fields of AgentBroker; Hex the comparison of hashes; Credentials the tokens, the registration and
-- #disconnect; Queue the queues of tasks (#pruneQueue, #dropBackgroundTasks, #takeTask, requeue);
-- Poll the long polls; Dispatch the way of a task from dispatch to its result or its timeout;
-- Upgrade the single and the batch upgrades. Events runs any of these calls in any order. Settled
-- promises are a list, in the order in which they are settled, as are the polls that are answered.
-- Settling and QueueRule reduce a statement on every history to one on the few ways in which the
-- calls touch the pending tasks and the queues; Queued, Order, Delivery, Access, Disconnect, Bounds
-- and Conservation apply them.
--
-- Graph (src/bird-resource-dependencies.ts, packages/contracts/src/resource-scope.ts): Scope says on
-- which nodes a resource stands; Inventory has the resources and Nodes makes the nodes of them (Kinds
-- is about both); Edges makes the graph; Acyclic is assertAcyclic; Closure is
-- validateDependencyClosure; Validate composes them. Coverage, Ranked, Sound and Accepts compare the
-- result with a description of what is accepted. The two depth-first walks run on fuel, one unit for
-- a call; running out is an outcome of its own. In an accepted graph every edge leads to a smaller
-- place, so that fuel above the largest place is enough.
--
-- Auth (src/auth.ts): State, Password and Sessions have the data and its tests; Changes has the
-- operations, each of which takes the state that it has observed and the state that its transaction
-- finds, so that other transactions may come between. Lookup, Entry, Takeover and Limits prove what
-- the operations guarantee.
--
-- Recovery (src/deployment-recovery.ts) is the runner that replays an unfinished deployment at the
-- start; how each attempt goes is given to it. EventLog (src/change-event-log.ts) is the log of
-- events. Source is about pieces of BIRD source: Identifiers is the scanner of
-- packages/contracts/src/bird-source-identifiers.ts, which finds the references of a resource, Names
-- is about what it finds, and Blocks is the check of src/bird-source.ts that a piece is whole.
--
-- Deployment (src/deployment-service.ts): State has the data, Targets says what each node is to get
-- (#targets, #markRemovedResources, #report), Journal has beginJournal, setJournalDirection and
-- clearJournal; Store is replace of src/store.ts as the service uses it. Attempt, Undo and Service
-- are mutateAndApply: the way up to the commit, the way back, and the loop of at most three attempts.
-- Recover is recover. All that happens outside (the answers of the nodes, of the hooks and of the
-- database) is in a Script, one for each attempt, or in a Replay: a write of the journal goes through,
-- is not made, or is made while its answer is lost. A World is the store, the stored journal and the
-- commands that were sent. Begun, Undone, Taken and Safe, Replayed and Returns prove what is
-- left behind, and Attempts how the loop ends.
--
-- Prefix is about lists of prefixes: Entries splits them (packages/contracts/src/prefix-entries.ts),
-- Pattern checks each one and the list (src/bird-prefix.ts), with net.isIP as a parameter; Separated
-- and Stable are the proofs.
--
-- Impact (src/resource-impact.ts) says which nodes a change of a resource touches.
--
-- Database (src/database.ts): State has the data, Memory is MemoryDatabase, each call being one
-- step; Transaction has the loops of MySqlDatabase that try again, with their bounds of eight
-- attempts and of connectRetries; Migrations is #runMigrations; Contract, Tables and Validation are
-- validateMySqlTableContract. Revisions, Locks, Audit, Retries, Pending and Layout are the proofs.
-- A text beyond ASCII is lowered only where the result could be equal to a value of a contract.
--
-- Prelude holds the shared parts: Tests (Boolean tests), Lists, Tails (the ends of lists), Sorting,
-- Dict (a Map in order of insertion) and Text (a text as its UTF-16 units).
--
-- Times are milliseconds. Random tokens and identifiers are arguments. The hash of a token (SHA-256)
-- and the derivation of a key from a password (scrypt) are parameters. Not modelled: logging, events,
-- failures of the database in the broker, what SQL statements do, the validation of stored documents,
-- the HTTP server, the rendering of configurations, the remote commands, the agent itself and the
-- user interface.
pub mod Prelude
pub mod Broker
pub mod Graph
pub mod Auth
pub mod EventLog
pub mod Recovery
pub mod Source
pub mod Impact
pub mod Deployment
pub mod Database
pub mod Prefix
