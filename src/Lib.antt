-- ===== src/Lib.antt =====
-- Cogitator's server: the parts of its Go code that keep state and decide.
--
-- Accounts, invite codes, refresh tokens and social links are tables (server/internal/user/store.go).
-- The handlers of api/ let people in: registration with an invite code, login, token refresh, the
-- first setup (auth_handlers.go), social sign-in (social_handlers.go) and the administration of
-- accounts (user_handlers.go). Failed logins are counted by the failure tracker (authlimit.go), and
-- the sign-in flows keep their nonces in the single-use store (ttlstore.go). Requests reach the
-- server through the drain middleware (drain/drain.go) and the rate limiter (ratelimit/limiter.go).
--
-- A conversation is a session with messages (session/store.go). The agent (agent/agent.go) sends the
-- messages to the provider and runs the tools it asks for; calls of the language models pass the
-- budget guard (budget/guard.go). The agent's memories are nodes with edges (memory/store.go), of
-- which the retriever (memory/retriever.go) picks those for a message, and the reflection trigger
-- (worker/trigger.go) decides when a conversation is looked back upon.
--
-- A task is run by the executor (task/executor.go), which writes one row of the run table
-- (store.go), calls the agent, and publishes what happened on the event bus (bus/bus.go). The retry
-- worker (worker/debugger.go) listens for failures and starts the task again, and the scheduler
-- (task/scheduler.go) starts it when it is due. The updater (updater/updater.go) looks for releases,
-- and a start brings the database up to date (database/migration_runner.go).
--
-- Files and code, with paths below server/internal:
--   Base            shared names, Boolean tests, lists, finite maps, byte texts, results, tables with
--                   unique columns (Rows), sorting, base64, 64-bit integers as text (Numbers)
--   User            user/types.go, user/store.go: accounts; its children Invites, Tokens and Links are
--                   the other tables, Integrity the calls of all of them in a sequence
--   Api/Auth        api/auth_handlers.go, issueTokens of api/social_handlers.go, the limits and
--                   writeAuthThrottled of api/authlimit.go; InviteLink is parseInviteCode, Clients
--                   is clientIP
--   Api/Users       api/user_handlers.go: roles, passwords, deletion, the caller's own account
--   Api/Social      api/social_handlers.go: handleSocialAuth, handleLinkOAuth, handleUnlinkOAuth; its
--                   child Login is completeSocialLogin, Flow the redirects from start to claim
--   Api/TtlStore    api/ttlstore.go: set, take, pruneLocked, evictOldestLocked
--   Api/FailTracker api/authlimit.go: fail, blocked, reset, pruneLocked, evictLocked
--   Bus             bus/bus.go: Subscribe, Unsubscribe, Publish, Close; channels are a heap
--   Budget          budget/guard.go: Allow, recordRequest, and the sliding window
--   Ratelimit       ratelimit/limiter.go: Allow, cleanup, Middleware; a call of cleanup is one step
--   Drain           drain/drain.go: Start, IsDraining, Middleware
--   Task/Runs       task/types.go, task/store.go: the run table and its queries
--   Task/ToolCalls  task/toolcalls.go: the record of the tool calls of a run
--   Task/Executor   task/executor.go: Execute, Cancel, classifyError, containsLower
--   Task/Race       task/executor.go: two calls of Execute as a sequence of steps
--   Task/Debugger   worker/debugger.go: handleFailure, handleTransient and its retry
--   Task/Scheduler  task/scheduler.go: Reload, addTaskLocked, catchUpMissed; `Cron` is the interface
--                   of the cron library
--   Agent/Context   agent/context.go: BuildMessages
--   Agent/Loop      agent/agent.go: the loop of Chat over rounds and tool calls, cancelCleanup
--   Agent/Providers agent/agent.go: SetProvider, SetModelProvider, resolveTitleProvider, tiers
--   Memory/Nodes    memory/types.go, memory/store.go: nodes, embeddings, edges, their queries
--   Memory/Retriever memory/retriever.go, memory/tokens.go: retrieveVector; its children Cache
--                   (the cache, InvalidateCache, the confidence that requests raise) and
--                   Classifier (retrieveLLM)
--   Session         session/store.go: sessions, their messages, the active session of a channel
--   Worker/Trigger  worker/trigger.go: trackMessage, checkIdleSessions; Live is the invariant
--   Updater         updater/updater.go: CheckNow, Download, Restart, the cache file, findAsset;
--                   Versions is updater/semver.go
--   Database        database/migration_runner.go: the numbered migrations, SQL as an interface
--
-- A Go map is an association list with distinct keys, and an operation under a mutex is one step. So
-- is the cleanup of the rate limiter, though it gives up the lock of a bucket before it deletes it.
-- The time is an argument of each operation, in nanoseconds. A panic and an error are values. Every
-- loop is structural recursion over a list, so no fuel is needed. Token counts of the rate limiter
-- are exact multiples of a nanosecond's share in place of float64. SQL statements are functions on
-- the list of rows, and the executor's statements may fail as the record of flags `Db` says, also
-- those whose error the code drops. The retry worker has such a flag for the row that it inserts.
-- The agent, the usage query and the address parser are arguments, and so are the operations on
-- float64 (`Floats`) and the answers of the embedder and of the language model.
--
-- The agent's loop is recursion on the rounds that are left, from `maxToolRounds + 1`, which is the
-- bound of the code's own loop. What it meets (replies, results, whether the context is done) is a
-- record of functions, read in order.
--
-- A statement of SQL fails where a constraint of the schema (UNIQUE, a foreign key) says so, and
-- otherwise works, but for the migrations, whose statements are an interface, and for what a flag
-- names. The updater's files and its JSON are functions, and a write may leave anything in its file.
-- bcrypt, the tokens of the JWT service, the verifier of social identities, the parser of mail
-- addresses, random ids and random bytes are arguments; `User.Laws` is what bcrypt documents. Texts
-- that the code takes apart are lists of bytes; case folding and the trimming of spaces know ASCII
-- only. A decoded JSON body is an option, `none` where it does not decode.
--
-- Not modelled: providers, connectors, prompts and the user interface, which are network calls and
-- text; the HTML of the sign-in pages and the request for an ID token; the download, the archive and
-- the restart script of the updater, of which only the outcome counts; the writes of the memory
-- store, the part of Chat before its loop, and the traces of retrieval.
pub mod Base
pub mod Api
pub mod Bus
pub mod Budget
pub mod Ratelimit
pub mod Drain
pub mod Task
pub mod Memory
pub mod Agent
pub mod User
pub mod Session
pub mod Updater
pub mod Database
pub mod Worker
