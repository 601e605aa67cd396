-- ===== src/Lib.antt =====
-- OpenPalm: the path of a message from a channel to the assistant, the schedules, and what
-- the control plane keeps in files.
--
-- A channel adapter takes a user's message, holds it back while the conversation's last one
-- is being answered, and sends it signed to the guardian. The guardian checks the size, the
-- JSON, the payload, the signature, the rate limits of the user and of the channel, and the
-- nonce, and takes what passes to a session of the assistant. Beside that, the scheduler runs
-- actions on the admin interface, on the network, in a process or on the assistant. The
-- control plane excludes processes that change an installation by a lock file, validates the
-- specification of the stack and the input of a set-up, derives variables from it that it
-- merges into an environment file, keeps secrets there, and puts snapshots of its files back.
--
-- Sdk.Value stands for the values of JSON, Sdk.Compare for `constantTimeEqual` and `asRecord`
-- of packages/channels-sdk/src/utils.ts and for crypto.ts, Sdk.Split for `splitMessage` of
-- utils.ts, Sdk.Payload for `validatePayload` of channel.ts there. Channels.Adapter is the
-- class of channel-base.ts and channel-sdk.ts beside them: `createFetch` is `create_fetch`,
-- and Adapter.Accepted puts the guardian's handler behind its `fetch`. Guardian.RateLimit,
-- Replay, Secrets, Forward and Server stand for rate-limit.ts, replay.ts, signature.ts,
-- forward.ts and server.ts of core/guardian/src: the module variables of each are a state
-- that its operations take and return, `allow`, `checkNonce`, `loadChannelSecrets`,
-- `askAssistant` and `clearAssistantSessions` are functions of the same names, and the
-- handler passed to `Bun.serve` is `fetch`, with one function for each stage of the message
-- path; `withSessionLock` of forward.ts is Forward.Turns, a machine of calls that enter, go
-- on and end. Channels.Conversation is `ConversationQueue` of
-- packages/channel-slack/src/session.ts, which channel-discord repeats; the settlement of a
-- task is an event. Channels.SessionKeys has that file's keys, and Channels.Permissions is
-- permissions.ts of both adapters. Channels.Api is packages/channel-api/src/index.ts, whose
-- three handlers are one function of the endpoint, with `extractChatText` of utils.ts in
-- Api.ChatText; Channels.Commands is commands.ts of packages/channel-discord/src.
--
-- Automation.Config and Automation.Action are packages/lib/src/control-plane/scheduler.ts,
-- Automation.Scheduler is scheduler.ts of packages/scheduler/src, with `executionLogs` and
-- `activeJobs` as its state, and Scheduler.Server is server.ts there. ControlPlane.Lock is
-- lock.ts of packages/lib/src/control-plane with one step for each system call, and beside it
-- ControlPlane.SpecValidator is spec-validator.ts, on values of JSON,
-- ControlPlane.SetupValidation is setup-validation.ts, ControlPlane.StackSpec reads what
-- stack-spec.ts does, ControlPlane.Env is env.ts, ControlPlane.CapabilityVars is
-- `writeCapabilityVars` of spec-to-env.ts, ControlPlane.Vault is the writing of stack.env in
-- secrets.ts, ControlPlane.Secrets is secret-mappings.ts, with the plain-text backend of
-- secret-backend.ts in Secrets.Backend, and ControlPlane.Rollback is rollback.ts, on two
-- trees of files. Base has the shared helpers: maps as association lists in the order of
-- insertion, the eviction of the oldest entries that three of the caches share, strings as
-- lists of code units, their splitting and joining, and the bit operations.
--
-- Times, timestamps and counts are natural numbers; what the source subtracts from them is
-- only compared with bounds above zero, where stopping at zero makes no difference, or is the
-- logged duration of a run, during which the clock is taken not to go back. The clock is read
-- by the argument that an operation takes. Queues and histories are lists, and every loop of
-- the source is a recursion on one of them, but for three: the retries of the lock, which are
-- five steps of a machine, and a call that is alone makes no more; the search for
-- placeholders in `resolvePromptTemplate`, on fuel of one more than the template's length, of
-- which each round takes at least one unit; and the loop of `splitMessage`, which runs on any
-- fuel that is given and says when it has not ended.
--
-- Parameters, since their code is not in the repository: `JSON.parse` and `JSON.stringify`,
-- the HMAC and SHA-256, `toLowerCase` and `toUpperCase`, `String` of a value, the parsers of
-- dotenv and YAML, the library of the timers, the system's answer to `process.kill(pid, 0)`,
-- the network and the processes, and the assistant, which may answer, fail, and take its time
-- as it likes.
--
-- Not modelled: the members that JavaScript objects inherit, numbers that are not natural,
-- requests interleaved with each other while they wait for the assistant, but for the turns
-- that those of one session take, file calls that fail, log lines, the adapters' calls of
-- discord.js and Bolt, the watching of directories, and the other packages: memory, the
-- command line, the admin console, the rest of the set-up and the rest of the control plane.
pub mod Base
pub mod Sdk
pub mod Guardian
pub mod Channels
pub mod ControlPlane
pub mod Automation
