-- ===== src/Lib.antt =====
-- Verification library for mkq, a job queue in Go that shares its Redis layout and its Lua scripts with
-- BullMQ.
--
-- The program. A producer (queue.go) encodes a job and its options and hands them to a script. A worker
-- (worker.go) runs a pool of dispatch loops. Each takes a job with moveToActive, runs the user's handler,
-- and settles the job with one more script: moveToFinished, retryJob or moveToDelayed. moveToFinished may
-- hand over the next job at once, already locked (the prefetched job). Beside the pool a loop scans for
-- jobs whose lock was lost, and Stop and Drain end it all. A job of a schedule queues its successor.
--
-- What a step of the program is. A script is a call on Redis, and a call is a value (Redis.Call): its
-- name, its KEYS and its ARGV. A step of type `M A` goes from the calls made so far (the history, the
-- newest first) to its result or error and the longer history. How Redis answers, the msgpack encoder, the
-- JSON parser, the clock, the user's handler, the random source, the cron library and float64 arithmetic
-- are not part of the repository; they are the fields of `Redis.World`, which every theorem that needs
-- them takes as a parameter, and which may answer differently after every call.
--
-- Where the parts are:
--   Prelude        names passed on, Boolean tests, lists, int64 arithmetic on ℤ, texts as lists of bytes
--   Failure        errors.go: the errors, and errors.Is and errors.As over them
--   Backoff        backoff.go: strategies and built-in delays; Backoff/Bounds proves what they are
--   Json, Decimal  JSON trees; strconv's integers and worker.go parseInt; Decimal/RoundTrip
--   Redis          calls, replies, the world and the steps; Redis/Scripts is internal/lua/loader.go's names
--   Keys           internal/keys/keys.go, and worker.go's queueKeys
--   Proto          internal/proto: opts.go, args.go, worker_args.go, finish_args.go; pool.go (Pool)
--   JobOpts        worker.go parseJobOpts and its helpers; JobOpts/Producer against internal/proto/opts.go
--   Reply          worker.go parseMoveToActiveResult, flatHashToMap
--   Cron           cron.go: which patterns are refused; Cron/Cache is parseCron with its cache
--   Schedule       internal/proto/schedule_args.go (Opts) and worker.go rescheduleNext (Reschedule)
--   Worker/Config  worker_options.go and the corrections of worker.go Process
--   Worker/Wait    worker.go nextIdleWait, sleep, awaitMarker, stalledCheckTTL, the waits of dispatchLoop
--   Worker/Retry   worker.go shouldRetry, computeRetryDelay and the user's functions behind it
--   Worker/Failures  worker.go buildFailureHistory
--   Worker/Finish  worker.go finishCompleted, finishFailed, runMoveToFinished, retryImmediate,
--                  retryDelayed, moveToDelayedKeepingAttempts, fetchAtm, releasePrefetchedLock
--   Worker/Finalise  worker.go runHandler and finalise (Defs), the abstract verdict (Verdict), and
--                  what the answer to its call has to lead to (Reports/Answers)
--   Worker/Heartbeat  worker.go heartbeat; Heartbeat/Lease sets it against the lock that it renews
--   Worker/Run     worker.go tryOnce, runJob, processJob
--   Worker/Dispatch  worker.go dispatchLoop
--   Worker/Stalled   worker.go stalledLoop, runStalledCheck
--   Worker/Shutdown  worker.go Stop, Drain, beginShutdown as a step relation; Shutdown/Wake is
--                  wakeDispatchers and dropWakeKey
--   Queue          options.go and queue.go: Add, dispatch, toProtoOpts, parseAddResult
--   Queue/Get      queue.go Get
--   Job            job.go, worker.go buildJob, queue.go buildJobState; job_mutation.go (Job/Mutations)
--   Inspector      inspector_admin.go: RemoveJob, PromoteJob, RetryJob, DrainPending (Admin); Pause
--                  and Resume with their loop (Pause); inspector.go and IsPaused (Counts);
--                  inspector_list.go (Listing)
--   Schedule/Options, Schedule/Upsert  schedule.go
--   Lua            internal/lua/preprocess.go (Path, Directive, Preprocess) and internal/lua/loader.go
--                  (Scripter: Run; Scripter/Preload: NewScripter, the Runs behind it (Session), and a
--                  SCRIPT LOAD that fails (Flaky))
--   Events         events.go: the events and their decoding (Decode), Subscribe (Subscribe)
--   Client         mkq.go: Queues and DiscoverQueues
--   Client/Connect  mkq.go: NewClient with the preload of the scripts, and Close
--   Queue/Define   queue.go Define and bootstrap, version.go
--   Metrics        queue_metrics.go
--   Observability  observability.go and the adapters; Observability/Emitted is what worker.go runJob and
--                  processJob emit; Shares, Runs and Balance are what comes of it
--   Tests          a concrete world and worker, and each theorem at a concrete input
--
-- Bounds and fuel. A time.Duration and an int are int64 and wrap (Prelude/Int). dispatchLoop and
-- stalledLoop run until the worker closes, so they run on fuel that counts rounds; what they have come
-- to when it is gone is their result, and the theorems on them hold for every amount, or for all that are
-- at least the two rounds that a closing loop takes. `executions` runs on fuel of at least the number
-- of attempts. A loop over digits has fuel for the twenty digits of a 64-bit number, and the loop of
-- pauseResume has the bound of a hundred rounds that the code gives it. The expansion of includes has the 33
-- levels that maxIncludeDepth allows, and the search for directives as many steps as the text has bytes.
-- Subscribe has fuel that counts its reads, and scanNode fuel that counts calls of SCAN: what they come to
-- is stated for all amounts, or for as many as the server's answers take.
--
-- Left out. The Lua scripts are BullMQ's: what the theorems say is which script is called, with which
-- KEYS and ARGV. Logging, metrics and tracing do not influence a job, so the steps of the program
-- leave them out; what a job's run emits is a function of its own (Observability/Emitted). Left out
-- are the log records and the spans, and the folding of concurrent loads of a script into one. What
-- other goroutines do while a heartbeat waits, while a pattern is compiled or while an encoder is lent
-- out is a parameter: a list of calls, or the state that they leave.
pub mod Prelude
pub mod Events
pub mod Failure
pub mod Backoff
pub mod Json
pub mod Decimal
pub mod Redis
pub mod JobOpts
pub mod Keys
pub mod Reply
pub mod Proto
pub mod Worker
pub mod Observability
pub mod Cron
pub mod Schedule
pub mod Job
pub mod Queue
pub mod Inspector
pub mod Client
pub mod Metrics
pub mod Lua
pub mod Tests
