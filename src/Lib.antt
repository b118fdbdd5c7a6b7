-- ===== src/Lib.antt =====
-- A model of the diagnostic core of mas-turbo, with the theorems that make it correct.
--
-- mas-turbo diagnoses a middleware deployment. Deterministic playbooks run first; agents then
-- investigate on a shared state, under a budget; everything that reaches the live system passes a
-- guard that lets only reads through. The parts interact so: the rules engine and the agents call
-- tools, a tool declares its effect, the guard allows or refuses it; what comes back is evidence,
-- what does not is a gap; findings and hypotheses cite evidence; each exchange with a model is
-- charged to a ledger. A topology decides which agent runs when, a pack is resolved to the deployed
-- version before anything runs, and the HTTP interface decides who may call and what of the
-- estate a caller sees.
--
-- Files and the code they model:
--   Base, Regexp     shared: text as lists of bytes with the functions of package strings, sorting,
--                    decimals, 64-bit strconv.Atoi, and regular expressions matched by derivatives.
--   Safety           internal/safety/guard.go. Effects: the call and its effects (Call, HTTPEffect,
--                    CommandEffect, ExecEffect, FileEffect). Tables: DefaultCommandRules,
--                    DefaultPathRules, mutatingPositionals, dangerousArgPatterns. Args: splitArgs,
--                    containsSequence, validPathComponent. Guard: NewGuard, compileCommandRule,
--                    authorizeCommand. Authorize: authorizeFile, authorizeExec, authorizeHTTP,
--                    Authorize.
--   Core             internal/core: text.go (Text), model.go (Model, Cost, and Report: SortHypotheses,
--                    SortFindings, and what Validate finds of evidence), expr.go (Identifiers).
--   Llm              internal/llm: Ledger.record, Ledger.ByRole, Pricing.CostOf (Ledger); NewRouter,
--                    route, inherit and For of router.go (Router).
--   Tool             internal/tool/tool.go. Registry; Invoker: Invoke with its guard, its budget and
--                    its gaps; Schedule: the budget as two atomic steps of each thread.
--   Agent            internal/agent/state.go: State and its guarded accessors. Each is one step, and
--                    a run of several agents is a list of steps (Ops). AddHypothesis takes the lock
--                    anew for each of its parts: Interleaved lets other agents come between them.
--                    internal/agent/loop.go: runLoop (Loop).
--   Orchestrator     internal/orchestrator/blackboard.go: Run, observe, changed (Blackboard), with a
--                    trace of the agents asked that nothing reads; the domains and the order of notes
--                    of supervisor.go (Agents).
--   Knowledge        internal/knowledge/pack.go (versions and ranges), overlap.go, and resolve.go:
--                    Pack.Resolve, resolveRules, resolveSteps (Resolve), signalRefs (Refs).
--   Eval             internal/eval: Score, Outcome.Hit, ByTopology (score.go), Outcome.Class and the
--                    cells of a baseline (baseline.go), Compare and Gate (compare.go).
--   Rules            internal/rules/engine.go and env.go, and MatchingPlaybooks of
--                    internal/knowledge/pack.go.
--   HttpApi          internal/httpapi: auth.go (Auth), admission.go (Admission), tenancy.go (Tenancy)
--                    and the handlers of diagnoses and targets of server.go (Handlers);
--                    internal/config/tenancy.go (Config).
-- The other modules of a folder hold proofs, and those named Examples, or ending so, runs at concrete
-- inputs.
--
-- Bounds and fuel: every loop of the code that is modelled runs over a list and is structural
-- recursion, but for two that the code itself bounds: the rounds of the blackboard, four, and the
-- turns of an agent, which recurse on what is left of that bound. Only the digits of a number
-- (Base.Decimal) use fuel, one more than the number, which each digit divides by ten. Amounts of
-- bytes and of time are natural numbers; amounts that the code treats as no limit (0 or below) are
-- 0. An amount of money is the expression of float64 operations that the code computes it by, with
-- no law of numbers assumed; a confidence is a whole number of thousandths, so NaN is none.
--
-- What is a parameter: url.Parse and regexp.Compile on configured patterns in the guard; the
-- expression language, the tools and the expansion of signals in the rules engine (Services); a
-- tool's plan, validation and read in the invoker; the opening of a provider in the router; the
-- model and the tools in the loop of an agent, and the step of each agent in the blackboard;
-- SHA-256, package net, JSON and durations, and the service, in the HTTP interface; how two amounts
-- of money compare; the order in which Go iterates a map, where a result depends on it.
--
-- What is not modelled: the texts of messages, times and payloads where nothing depends on them;
-- network, files, processes, prompts and rendering; of the orchestrator the topologies other than
-- the blackboard; validation of packs, of the configuration and of a report but for the ids of its
-- evidence; redaction; the roles of the agents; and the wiring of the service.
pub mod Base
pub mod Regexp
pub mod Core
pub mod Safety
pub mod Llm
pub mod Tool
pub mod Agent
pub mod Orchestrator
pub mod Knowledge
pub mod Rules
pub mod Eval
pub mod HttpApi
