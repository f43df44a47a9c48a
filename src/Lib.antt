-- ===== src/Lib.antt =====
-- Verification of the Incident Investigator: an investigation runtime that keeps a session for each
-- incident, takes evidence for it, asks the questions of a playbook, resolves them from the evidence
-- and ranks hypotheses. Paths below are those of the repository.
--
-- Parts and files:
-- - Model: the data of internal/model (Evidence, Graph, Protocol, Investigation, Reasoning, Session),
--   the signals of internal/signals (Signals), and what the program takes from Go (Platform: float64
--   as an abstract type with its operations, the case mapping of texts, the verbs of fmt).
-- - Graph: internal/graph. Graph/Store is MemoryStore: a dictionary of nodes, one of edges, and the
--   list `order` of the node ids; AddNode, UpdateNode, DeleteNode, AddEdge, RemoveEdge, GetEdges,
--   AllNodes, AllEdges, View and FromView keep their names. Graph/Links is the adjacency map that the
--   walks build. Graph/Traversal is Traverse and subgraphFromNodes, Graph/ShortestPath is
--   ShortestPath, Graph/Query the queries of query.go, Graph/Explain its ExplainPath, and
--   Graph/Consistency the loops of Check over edges and nodes.
-- - Signals: internal/signals. Signals/Analysis is Analyze, Signals/Lock the analysis of lock
--   contention, SortedByTime and EvidenceMatching, Signals/Keywords the table of keywords,
--   Signals/Negation all of negation.go.
-- - Protocol: internal/engine/protocol. Protocol/Playbook has the types of internal/engine/playbook
--   and signalTriggered; Protocol/Questions is ensureQuestions and generateDynamicQuestions,
--   Protocol/Requests syncEvidenceRequests, Protocol/Resolution the ResolutionEngine with the cases of
--   its switch in Protocol/Resolution/Cases and Services, Protocol/Effects applyPlaybookEffects,
--   Protocol/Resolving resolveQuestions, updatePlanLists and ResolveQuestion, Protocol/Turn Run.
-- - Reasoning: internal/reasoning. Reasoning/Validator is Validate, Reasoning/Changes the helpers of
--   the applier and Reasoning/Applier its switch, Reasoning/Applier/Loop Apply, Reasoning/Merge the
--   merger with both of its strategies, Reasoning/Reasoners the registry, Reasoning/Orchestrator
--   Execute.
-- - Engine: the scoring engines of internal/engine. Engine/Planning is planner.go, missing.go and
--   timeline.go, Engine/Scoring confidence.go, Engine/Progress progress_v2.go, Engine/Trace
--   reasoning_trace.go; Engine/Coverage, Engine/Strategy, Engine/Importance and
--   Engine/Contradictions are named after their files.
-- - Runtime: internal/runtime. Runtime/Sessions is the store of sessions, Runtime/Recompute the
--   function recompute, and Runtime/Starting, Runtime/Submitting and Runtime/Operations are Start,
--   Submit, and Get, ResolveQuestion and Finish. Runtime/Reachable puts the operations together as
--   steps on the store, those that fail included, and Runtime/Frozen as the steps after a session is
--   completed.
-- - StateMachine and Sufficiency: state_machine.go and sufficiency.go of internal/engine.
-- - Archetype: the registry and the ranking of internal/archetype.
-- - Examples: a small incident, and the theorems applied to it.
-- - Prelude: tests, lists, pairs of lists, sets of texts and their order, dictionaries, sorting and
--   results, which all parts share.
--
-- How the parts interact: an operation of Runtime finds its session in the store, changes it and
-- recomputes it. A recompute analyses the evidence, lets the orchestrator of Reasoning run the
-- reasoners and apply what they propose, takes a turn of Protocol, and derives the metrics, the state
-- and the status. The engines that the runtime calls are the fields of the record Setup, since they
-- are interfaces in Go; Engine holds the built-in ones. A turn of Protocol reads the signals of the
-- evidence, extends the plan of the session from the playbook, resolves open questions, lets the resolutions move the hypotheses, and
-- writes the plan, the metrics and the evidence requests back. The state machine then reads the report
-- of the sufficiency engine. Queries and walks read the graph store only through AllNodes, AllEdges
-- and GetNode.
--
-- Conventions: a function that changes an object takes it and returns it. Ints that the program never
-- makes negative, such as priorities and limits, are natural numbers, with 0 for a limit that is not
-- positive. A time is a natural number of nanoseconds. A Go map is an association list, a set of
-- visited ids a list of texts, a map that is only read a function. Texts that clients may choose,
-- such as categories and types of nodes, are texts; closed enumerations are data types. A sort is a
-- stable insertion sort with the comparison of the program.
--
-- Fuel: the loops over queues and the recursive walk run on fuel, and `none` stands for fuel that ran
-- out. The breadth-first walk gets one round for each link and two more, since a round takes an id off
-- the queue and each link is queued once. The search for a path gets one round more than there are
-- ids to visit. The recursive walk gets the limit and one more, since each level adds an id.
-- reverseTraverse gets its limit, since a round takes an id off a queue that is never longer than what
-- is collected.
--
-- Not modelled: the mutexes, since each call is one step; the event bus, whose handlers must not
-- change a session; JSON; the server, the reports and the generators, which are input and output.
-- The built-in reasoners and archetypes, the parser of playbooks, the graph builder, the estimate
-- of the blast radius, the search for cycles of the consistency check and the archive of past
-- incidents are left out: the modelled parts take what these compute, such as actions, playbooks
-- and calibrations, as arguments. Identifiers that are drawn at random, the clock, and the order in
-- which parallel reasoners finish are arguments too.
pub mod Prelude
pub mod Model
pub mod Graph
pub mod Signals
pub mod Protocol
pub mod Reasoning
pub mod StateMachine
pub mod Sufficiency
pub mod Engine
pub mod Runtime
pub mod Archetype
pub mod Examples
