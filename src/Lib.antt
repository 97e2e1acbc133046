-- ===== src/Lib.antt =====
-- Verification library of Bastion, the gateway that runs commands in sandboxes for agents.
--
-- The program. A provider creates sandboxes; the domain crate keeps each as an aggregate
-- (crates/bastion-domain/src/sandbox/entity.rs) and each provider keeps the status of its own in a
-- state machine (crates/bastion-domain/src/provider/state_machine.rs). The pool manager
-- (crates/bastion-infrastructure/src/pool/manager.rs) keeps queues of warm sandboxes by template,
-- which it fills in the background through the provider and the repository. When a command has run,
-- the enrichment engine (crates/enrichment-engine/src) extracts facts from its output and evaluates
-- the rules on them: a condition is lexed (rules/lexer.rs), parsed and evaluated (rules/ast.rs), and
-- the rules whose conditions hold give verdicts, facts and recommendations (rules/evaluator.rs,
-- models/rule.rs).
--
-- The files.
-- - Base: helpers. Base/Chars has the functions of the standard library on text; Base/Map is `HashMap` and `DashMap`, an association list in which an insertion
--   replaces; Base/Int has the integers and `as i32`, `as i64` with their wrap-around.
-- - Sandbox: Status, Errors and Entity are value_objects.rs, error.rs and entity.rs; Machine is
--   state_machine.rs, each method a function from the map to the map and the result. Machine/Diagram
--   is the diagram of the comment, a relation; Machine/Laws is about single calls, Machine/History
--   about sequences of calls, Machine/Counts about `count_by_status`; Entity/Lifecycle compares the
--   aggregate's transitions with the machine's, Entity/Expiry is about times.
-- - Rules: Lexer is
--   lexer.rs, with the theorems in Lexer/Progress and Lexer/Stream; Expr, Parser, Parser/Calls, Facts
--   and Eval are ast.rs; Parser/Grammar is the grammar that the parser follows, a relation, with its
--   lemmas in the modules below it, Parser/Complete and Parser/Accepts are about the parser on what it
--   derives, and Parser/Fuel about the fuel; Evaluator is evaluator.rs and models/rule.rs.
-- - Enrichment: Truncate is truncate.rs of the engine; Sanitizer is sanitizer.rs, with the checks in
--   Sanitizer/Checks; of Sanitizer/Laws, Progress is about the loop, Rounds and Values about secrets at
--   the places where it stands, Clean about commands without secrets; Command/Tokenizer and Command/Classifier are
--   extractors/command_extractor.rs; Metrics is metrics.rs, and Metrics/History is about sequences of
--   its calls.
-- - Resource: Name and Factory are the resource names of crates/bastion-domain/src/shared/brn.rs, Policy
--   is the policy on them.
-- - Template: Layer is crates/bastion-domain/src/template/layer.rs. Provider: Capabilities and Types are
--   capabilities.rs, provider_type.rs and type_registry.rs of crates/bastion-domain/src/provider;
--   Instance, Constraints, Config and Refs are instance.rs, instance_constraints.rs,
--   instance_config.rs and the files of the types that this one refers to.
-- - Catalog: Experience and Assertion are experience.rs and assertion.rs of
--   crates/bastion-domain/src/catalog; Assertion and Shim have also the conversions of
--   crates/bastion-infrastructure/src/catalog/toml_assertion_parser.rs and the comparison of
--   evaluation/legacy_cel_shim.rs there; Doctor, Advice and Shim/Triggers are the same for doctor.rs
--   and advice.rs. Rules/Lexer/Words is about the tokens of its conditions.
-- - Circuit: the circuit breaker of a worker's handle in crates/bastion-gateway/src/registry.rs; Laws
--   is about sequences of outcomes and single failures.
-- - Pool: Queue is `PoolQueue`; Ports are the traits that the manager calls, as functions that may
--   change a world; Manager has the calls of the clients, Refill the background task, Recovery the
--   reconciliation on start. Invariant and its children are about what every call keeps, Filling
--   about the refill loop, Reuse about check-in, stop and registration.
-- - Each part's Tests run its operations and apply its theorems at concrete inputs.
--
-- Text is a list of the codes of its characters where the code looks inside, of its bytes in the
-- sanitizer, and a string in Sandbox and Pool. `char::is_alphanumeric` and the crate `regex` are parameters of the rule language; times
-- are a parameter of the aggregate and numbers of milliseconds in the pool.
--
-- Fuel. `tokenize` has one unit more than the characters left, since a token takes a character;
-- `parse` has nine units for each character, since a token costs at most nine calls, and twenty more
-- for the calls at the end. The sanitizer has a unit for each byte and the command's tokenizer one for
-- each character, since each round takes one. The refill loop has as many units as sandboxes are missing, since a round
-- adds one or ends the loop.
--
-- Concurrency. A call of the state machine or of the pool runs to its end before the next one: the
-- maps lock an entry at a time, and interleavings inside a call of the pool are not modelled. The
-- semaphore's permits are those that other calls have left.
--
-- Not modelled: the transports, the storage in files and databases, the providers' calls of container
-- engines, the command line and the dashboard, which are input and output; messages of logs; the
-- texts of errors, in place of which the values that they are about are kept.
pub mod Base
pub mod Resource
pub mod Sandbox
pub mod Template
pub mod Provider
pub mod Rules
pub mod Catalog
pub mod Enrichment
pub mod Pool
pub mod Circuit
