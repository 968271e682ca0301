-- ===== src/Lib.antt =====
-- The local memory and governance engine for coding agents, by its parts.
--
-- The governance gate decides, at the Stop of a session, whether the evidence of earlier gate runs
-- covers what changed. A client's hooks record commands and mutations. Command.antt and
-- Command/Match.antt are src/governance/command-match.ts: the tokenizer of one simple shell command,
-- a round of its loop for each character, and the match of an observed command against a gate.
-- Paths.antt is what these use of Node's posix paths. Evidence.antt and its children are
-- src/governance/evidence-selector.ts: the types; Evidence/Glob the path patterns, as the parts of
-- the regular expression they compile to; Evidence/Selection the required gates; Evidence/Classify
-- the choice of a run and its classification. Verdict.antt is src/governance/verdict-types.ts, the
-- order of tests that turns the gates' states into a verdict. Capability.antt is
-- src/governance/capability-status.ts and Mode.antt src/governance/effective-mode.ts: what a client
-- supports, and the mode that follows from it. Warning.antt is the shell quoting of
-- src/governance/warning-policy.ts, and Warning/Emission its emission decision with the audit store
-- of src/governance/governance-warning-audit.ts.
--
-- The plan repository, src/db/plan-repository.ts, keeps plans with steps and decisions. Plan.antt
-- has its tables, Plan/Query and Plan/Batch its reads, Plan/Calls and Plan/Steps its writes, and
-- runs of them are in Plan/Runs. Validation.antt is what it uses of src/utils/validation.ts.
--
-- Shadow.antt, Shadow/Attempt and Shadow/Stop put the parts together as
-- src/governance/shadow-evaluator.ts does with its support and runtime files and
-- src/governance/shadow-verdict-store.ts: a snapshot and a configuration give a selection, each
-- required gate is classified by the digest of its paths, and the states with the client's
-- capabilities give the verdict, which is written if the store has not moved; if it has, there is a
-- second try. A deadline check is an argument that says whether the time is over there; the capture
-- of a digest is a function of the paths, and what other connections write meanwhile a function of
-- the tables.
--
-- ResultParser.antt and ResultParser/Summary are src/governance/result-parser.ts, Recorder.antt the
-- gate runs that src/governance/recorder.ts makes of a parsed result, and Mutation.antt
-- src/governance/mutation-classifier.ts. Override.antt is src/governance/override-validator.ts and
-- Override/Store src/governance/governance-overrides.ts. Retention.antt is `cleanupEvidence` of
-- src/governance/repository-cleanup.ts.
--
-- Reminder.antt and Reminder/Runs are src/db/reminder-repository.ts, Reminder/Condition
-- src/utils/condition-evaluator.ts, Fts.antt src/utils/fts.ts, and Budget.antt
-- src/hooks/shared/warning-budget.ts with the lines of the pitfall hook that spend the budget.
--
-- Base.antt has the names that all files share, Examples.antt concrete inputs.
--
-- A text is the list of its code units, compared as the source compares strings. A table is the list
-- of its rows in the order of insertion; a statement is a function of it, and an operation takes the
-- tables and gives them back with its answer. What a JSON column holds is kept as a value. A
-- constraint that fails, as one that makes the source throw, is an answer of its own. The clock, new
-- ids, `Date.parse`, `Number`, hashes, SQLite's text search and `process.cwd()` are
-- arguments. There is no fuel: every loop recurses on its list. The tokenizer keeps the
-- source's bound of characters, and counts are compared with the
-- greatest safe integer where the source does so.
--
-- Not modelled: the reads and writes of SQLite, git, files and processes around these parts; hashes
-- and JSON; the wording of messages; the redaction of an override's reason; how a
-- snapshot is read and its watermarks are set; and the parts of the repository that the tree
-- above does not name, such as the memory search, the hooks and the memory tool.
pub mod Base
pub mod Paths
pub mod Command
pub mod Warning
pub mod Evidence
pub mod Verdict
pub mod Capability
pub mod Mode
pub mod Validation
pub mod Plan
pub mod Examples
pub mod Shadow
pub mod Fts
pub mod Reminder
pub mod ResultParser
pub mod Retention
pub mod Recorder
pub mod Mutation
pub mod Override
pub mod Budget
