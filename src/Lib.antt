-- ===== src/Lib.antt =====
-- Verification library of the agentx platform: models of the platform's core logic, and theorems
-- about them.
--
-- Parts. A job is submitted to the harness server, whose in-process dispatcher starts it, queues
-- it or refuses it. A started job runs a flow: a drawn graph of steps, which is rewritten,
-- compiled to executors and routers, and run by a graph engine (a library) over a state of
-- channels. An agent step reports the files that it has staged, and a reviewer may interrupt the
-- flow. Beside the jobs an edge server keeps the agents' memory and consolidates it from narrow
-- scopes to wider ones. The models that an agent accepts are resolved to bindings with
-- credentials, which are tried in order. A flow is checked when it is loaded: it has no cycle but
-- along the edges of rejections. The events of a job's adapters go over a bus, where an
-- accumulator adds up what they cost. A server of context crawls at the times of cron expressions.
--
-- Files, and the source that they model:
--   Prelude: texts as lists of UTF-16 code units, with ===, <, join and split; Map and Set as lists
--     in insertion order; results of code that may throw; Boolean tests on natural numbers.
--   Dispatcher: packages/harness-server/src/dispatcher.ts, and its call sites in index.ts
--     (handleCreateJob). State: the set of running jobs and the queue. evaluate_submission,
--     fire_immediately, enqueue, on_job_terminal, status_snapshot are the functions of those names;
--     step is one submission or one end of a job, run a sequence of them.
--   Changes: packages/harness-core/src/changed-files.ts, the parser of the output of git diff.
--   Flow: packages/harness-core/src/flow-graph.ts, with the types of catalog.ts.
--     Flow/Values, Flow/Expressions: dynamic values, evalExpression, resolveExpressionValue,
--       evalCompare, resolveJsonPath.
--     Flow/State: the channels of FlowState and their reducers, freshFlowState of orchestrator.ts.
--     Flow/Edges: edges, tags and nodes. Flow/Router: buildRouter.
--     Flow/Gate: makeGateExecutor and makeTransformExecutor.
--     Flow/Rewrite: rewriteFlowForInterruptTags and wrapWithTags.
--     Flow/Loop: loopWrapper, resolveLoopItems, runLoopSequential, runLoopParallel.
--     Flow/Interrupts: makeApprovalExecutor, makeSuspendExecutor, summarizeChanges,
--       extractPrUrlFromOutput.
--     Flow/Compile: compileFlow, groupEdgesBySource, builtinExecutor, linearFlowFromAgents.
--   Memory: packages/edge-memory-server/src/store.ts, the store in memory: put, query, forget, tag.
--     Memory/Consolidate: consolidate.ts of the same package.
--   Bindings: provider-registry.ts and binding-resolver.ts of packages/agent-auth-lib/src: findBinding,
--     resolveBindingFor and resolveAllBindingsFor.
--   Candidates: packages/harness-core/src/orchestrator.ts: runCandidates.
--   Orchestrator: the same file: makeAgentExecutor, buildCandidates, failAgent and
--     composeSystemPromptWithSteering, on the record of a job. Orchestrator/Jobs: runJob, resumeJob,
--     finalizeOrPause, extractInterrupts, steerJob, cancelJob. State: World, what the maps of jobs
--     and graphs hold for one job, with the calls of the hooks. Orchestrator/Server: fire and
--     handleResumeJob of packages/harness-server/src/index.ts; state: ServerCtx, with the dispatcher
--     and the attached tokens.
--   Catalog: packages/harness-core/src/catalog.ts. Catalog itself: hasCycle, dfsCycle. Catalog/Shapes:
--     the tests on parsed values. Catalog/Expressions: validateExpression. Catalog/Agents:
--     validateAgentDef, its fields, and resolveAccepts. Catalog/Steps: validateNode and what it
--     calls. Catalog/Flows: validateEdge, validateFlow, validateFlowCatalog. Catalog/Products:
--     validateUnifiedCatalog.
--   Tokens: packages/harness-core/src/token-accumulator.ts: what a response of an adapter adds to
--     the totals of its agent and job (handle). Tokens/Bus: job-bus.ts of the same package, and attach
--     and detach.
--   Cron: packages/edge-context-server/src/cron.ts: parseCron, parseField, nextFireTime. Cron/Written
--     describes how a field is written and what it stands for, apart from the parser.
--   The children of each part hold its proofs, named for what they prove, and its tests.
--
-- How the source is read. Async functions are functions that return or throw; an executor that
-- interrupts is one function of what the reviewer sent, which is absent on its first run. Objects
-- with optional fields are records of options. Numbers of the JavaScript engine are an abstract type
-- in a record of functions (Host), on which nothing is assumed; its conversion of an object to a
-- number may throw. Counters, limits and lengths are natural numbers. What is not in the repository is an argument: git, the file system, toLowerCase,
-- JSON, clocks, the summarizer, the engine's sort, and which of several rejected promises comes
-- first. The state as expressions see it (a JavaScript object) is an argument too, view.
--
-- Fuel. run_loop_parallel has fuel: the number of items bounds the number of chunks, since a chunk
-- is never empty. next_fire_time looks at the minutes of four years and one more. dfs_cycle has the
-- number of nodes with edges plus one, since each node on the way was white before it was searched.
-- The loop over the numbers of a part of a cron expression has as many rounds as there are numbers,
-- at most. All other loops recur on their input. Printing a number in decimal recurs on the number
-- plus one, since each digit makes it smaller.
--
-- Not modelled: the run of the compiled graph by its engine and its checkpoints (a call of it is
-- the agent steps that it runs and its result), the adapters to models, the HTTP layers, the
-- executors of tools, scripts and publications, the persistent stores, the timers of the cron
-- scheduler, and the command line and web front ends. A negative limit of a query, a chunk size that
-- is no number, node ids that name a member of every object (Flow/State), and a call of the function
-- that attach of the token accumulator returns (detach ends the subscription) are left out.
pub mod Prelude
pub mod Dispatcher
pub mod Changes
pub mod Cron
pub mod Flow
pub mod Memory
pub mod Bindings
pub mod Candidates
pub mod Catalog
pub mod Orchestrator
pub mod Tokens
