-- ===== src/Lib.antt =====
-- A model of the parts of pi-shared that several processes and sessions share state through, with the
-- theorems that make them correct. pi-shared is a set of extensions for a coding agent, in TypeScript.
--
-- The parts, and where their models stand:
--
-- - FileLock (extensions/_shared/file-lock.ts): the lock by a directory that all of these files are under.
--   State has the directory and one attempt (tryAcquireLock, then releaseLock) as the sequence of its
--   calls of the file system, Reclaim the same for breakStaleLock, System any number of both in any
--   interleaving, with processes that die and pids that come back. Invariant is kept by
--   every step (Deaths, Reclaims, Reachable);
--   Exclusion reads off that the lock excludes and refines the lock that one holds or nobody; Recovery
--   has runs with nobody else acting, Waiting the loop of withInterprocessLock.
-- - Goal (extensions/goal/index.ts, extensions/goal/agent-end.ts): the goal that the autopilot pursues.
--   State has the goal, its log and the prompts that wait, are held or sent; Ownership the checks
--   (latestHandoffForRequest, unresolvedChildOwnership, outboundGoalOwnership,
--   reactivationBlockReason) on the records of Handoff; AgentEnd the handler of agent_end; Actions the
--   command's verbs and the tools; Gate the listeners of a handoff; Budget and Owned are proofs.
-- - JobWake (extensions/_shared/job-wake.ts): the hub that wakes an idle session for finished jobs. Hub
--   has the hub and its steps; Counts, Turns and Fresh are proofs.
-- - Journal (extensions/workflow/journal.ts): the journal that a later run of a workflow replays. Store is
--   the code, Replay what is found again.
-- - SafeEdit (extensions/safe-edit/state.ts): exact replacements in a file. Replace is replaceExactly,
--   Pieces what it does to a text; Files is scopedFile and readText, Session the map of previews and
--   apply, Applies and Previews what a written text is and what the map holds.
-- - Scheduler (extensions/_shared/subagent-scheduler.ts, and SubagentConfig of
--   extensions/_shared/subagent-config.ts): the processes of a host share a state file of waiters and
--   leases. State has the file's types, its reading and pruning and the reconciling of limits; Select
--   the choice of the waiters that may start; Acquire one round under the file's lock (`acquire`'s
--   call of `mutate`), heartbeats and releases; Loop the polling loop with its timeout, abort and
--   cleanup; Group the execution group with its fan-out limit, close and drain.
-- - Coordinator (extensions/_shared/coordinator-state.ts): what sessions leave for each other on disk.
--   Ids has the tests on identifiers; Ledger the ledger of answered requests (claimRequestReply,
--   markRequestReplyQueued, readResponseRequestStatus); Wake the ledger of wake-ups (claimPeerWake,
--   hasPeerWakeClaim); Records the status record of a sent message as it is stored and read; Outgoing
--   the status files of a session; Envelopes and Delivery putting a message into a peer's inbox
--   (normalizeEnvelope, enqueueMessage), Receipts making an envelope and keeping it. Marking a reply
--   queued touches a ledger first and a status file after, under two locks: these are two steps,
--   mark_reply_queued and record_answer.
-- - WorkPlan (extensions/work-plan/index.ts): the checklist of a session. State has the plan and the
--   helpers, Actions the cases of the tool's `execute`, Invariant, Steps, Finish and Runs show that each
--   keeps the invariant, Events puts them together with the start and the end of an agent run and the
--   restoring of saved plans, Completion and Unblock say what those two actions leave.
-- - Handoff (extensions/_shared/handoff-state.ts): a session that hands over to a child. Records has
--   the audit records and their parsing, Reduce what all records of a request resolve to
--   (reduceSelfHandoffRequest), Finality that this agrees with every record, Plan the work plan that
--   is taken along (latestWorkPlanState, collectTransferState), on the plan of WorkPlan, and the check
--   of the saved state in extensions/self-handoff/index.ts.
-- - Common has the shared names, lists over the native numbers, texts by UTF-16 length and white space
--   as the source's patterns take them, and results for code that throws or returns undefined.
--
-- How the code is read. A function that runs under a file lock is a function from the file's content to
-- a result and a new content; an interleaving of processes is a list of such steps or a step relation.
-- An error leaves the content as it was. Clock readings (a function of the request, where a filter reads the clock for each), random ids, the results of `process.kill` and
-- the outcome of waiting for a lock are arguments, one for each place that reads them;
-- `String.prototype.localeCompare` is a parameter, with the laws of an order where a theorem needs them.
-- `Array.prototype.sort` is a stable insertion sort. Times and ids are natural numbers. The hash that
-- names a ledger's file is taken to be injective: a ledger is named by the session id. A stored file is
-- modelled as far as its present fields have the types of the interface.
--
-- A lock's directory is its inode, its time of change and its list of names; each call of the file system
-- is one step, so anything may happen between two of them. SHA-256 is a parameter, taken to be injective
-- in one theorem. The UTF-8 coding of Buffer and the size of JSON are parameters of the edits.
--
-- Bounds. Nothing runs on fuel but the polling loop of `acquire`, which runs over the list of the rounds
-- that happen and ends in the first that starts at or after the queue timeout. The limits of the source
-- (100 requests, 100 wake-ups, 100 status files, 40 items of a plan) are constants of the model.
--
-- Not modelled: the orientation of a handoff's child (whether one holds a goal back is an argument of the
-- handlers) and the goal that is handed over; the verb reclaim and the parsing of the arguments of the
-- goal command; the wording of prompts and messages; reading and
-- adopting inboxes, presence records and pruning of the coordinator; keys of resource limits
-- that are properties of Object.prototype; the agent that runs under a lease; rendering, reminders and
-- tool registration; the other extensions, which mostly drive processes, servers and the network.
pub mod Common
pub mod FileLock
pub mod Goal
pub mod JobWake
pub mod Journal
pub mod SafeEdit
pub mod Scheduler
pub mod Coordinator
pub mod WorkPlan
pub mod Handoff
