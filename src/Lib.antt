-- ===== src/Lib.antt =====
-- The deterministic core of SmartBench, a reviewer of repositories. Language frontends turn source files into
-- operations joined by edges; analyzers query graphs over them and report violations as facts with evidence; a debate
-- of language-model roles may only keep suggestions that cite such facts; large repositories are reviewed in shards.
--
-- The parts, the files that model them and the code that they are about:
--
--   Code          smartbench/graph/schema.py, `CodeGraph`: Schema is nodes and edges, Graph the state, its mutators,
--                 its queries and `merge`, Expand is `expand`, Loading `to_dict` and `from_dict`.
--   Ir            smartbench/ir/operations.py: operations, edges, source references. An attribute value is a `Value`;
--                 what Python's text operations do with it is the parameter `PyText`.
--   Contracts     smartbench/ir/contracts.py: Views is what is read off an operation, Validate the validation, Shapes
--                 says the contracts of the attributes themselves.
--   Representation  smartbench/ir/schema.py, `SemanticIR.merge`: Union is the loop that appends what is new.
--   ControlFlow   smartbench/analysis/control_flow.py, `ControlFlowGraph`: Graph is the state and its construction,
--                 Reach is `reachable` with its cache, Between is `dominates_between`, `branch_controls` and
--                 `_reachable_without`, Dominators is `_dominators` and `dominates`.
--   Icfg          smartbench/analysis/icfg.py, `InterproceduralControlFlowGraph`: Graph is the state, Build is
--                 `_build`, Path is `path`.
--   StateMachine  smartbench/analysis/state_machine.py and state_paths.py: Selector is `OperationSelector` and
--                 `StateInvariant`, Scope is `_evaluate_scope`, Cross is `_evaluate_interprocedural`, Analyze is
--                 `analyze`, Paths is `InterproceduralStatePathQuery.find`.
--   Capabilities  smartbench/ir/capabilities.py, and `supports`, `missing_capabilities` and `assess_requirements` of
--                 smartbench/ir/schema.py.
--   Evidence      smartbench/ir/evidence.py, `EvidencePack.from_facts`, and the facts of state violations.
--   Debate        smartbench/engine/debate.py: Gate is `_grounded_items`, Call is `_safe_call` and `_safe_json_call`,
--                 Run is `debate`. The language model and the verifier are parameters.
--   Sharding      smartbench/sharding: Plan is `build_shard_plan`, Packs is `scope_evidence_pack`, Runner and Reviewed
--                 are `run_sharded_review`, Merge is `merge_shard_results`. The clock, the order in which a pool's
--                 debates end, and the order of confidences, which are floats, are parameters.
--   Flow          smartbench/flow/scope.py: Scope is `Scope` and `ScopeManager`. Scopes are shared objects: a
--                 reference is a position in the list of all scopes.
--   Consent       smartbench/consent/queue.py: `stage` and `update_request` on the queue's requests.
--   Feedback      smartbench/feedback/policy.py, `build_priors` and `rank_findings`, and `summarize_trials` of
--                 smartbench/llm/trials.py.
--   Search        the worklist search that the queries of ControlFlow share, with what it finds and the fuel it needs.
--   Prelude       shared types, dictionaries in insertion order, sorting and list lemmas.
--   Examples      concrete runs at which the theorems are applied.
--
-- StateMachine uses ControlFlow and Icfg through their queries; Evidence turns its violations into facts; Debate is
-- given the ids of facts. Representation joins the graphs of Code and reports on Contracts; Sharding merges what
-- several runs of Debate return.
--
-- Loops run on fuel. In ControlFlow the fuel of a query is the number of operations and that of the dominator
-- sweeps is a square of the number of operations of the function, in Icfg it is the step bound and one, and
-- for these the fuel is shown to be enough. In Flow a lookup's
-- fuel is the number of scopes, which is shown to be enough. In Sharding the fuel is an argument, since the loop
-- that merges groups need not end; the number of paths is enough to tell whether it does.
--
-- Natural numbers stand for the source's integers, none of which it makes negative here but for line numbers of
-- findings and positions, which are integers; a capability's rank is one
-- above the source's. Confidences, which are floats, prompts, logs, callbacks, durations, the serialisers but
-- for those of the code graph, and content hashes are left out.
--
-- The code graph's `from_dict` is modelled on values of the annotated types; on others the model stops where Python would
-- keep the value. Python iterates over sets in no fixed order; the model takes the order of insertion.
--
-- Not modelled: the frontends, the building of the code graph and its retrieval, the data-flow analysis over syntax
-- trees, the project reader, the clients of language models, the command line and the reports, which are parsing,
-- files and network; the remaining analyzers (retry loops, resource lifecycles, adjudication, interprocedural
-- contracts), the advisory thresholds, and the files of the feedback store and the consent
-- queue.
pub mod Prelude
pub mod Ir
pub mod Search
pub mod Code
pub mod Contracts
pub mod Representation
pub mod Flow
pub mod Feedback
pub mod Consent
pub mod ControlFlow
pub mod Icfg
pub mod StateMachine
pub mod Capabilities
pub mod Sharding
pub mod Debate
pub mod Evidence
pub mod Examples
