-- ===== src/Lib.antt =====
-- The queue of job_applier and what stands around it: the part of the program that decides which
-- application is worked on, by which worker, and whether its submission may be clicked.
--
-- The program applies for jobs in a browser. Workers take jobs from a queue in SQLite
-- (src/job_applier/automation/queue.py, tables in src/job_applier/db.py), under leases with a fencing
-- generation; operators pause, take over, skip, cancel and resolve jobs from a dashboard; sweeps
-- recover what a crash left behind. An application must not be sent twice: before the click the worker
-- stores its intent, and whatever is interrupted after that becomes `ambiguous_submission`, which only an
-- operator resolves.
--
-- Around the queue, the guard (src/job_applier/automation/safety_guard.py) checks a submission before the
-- click and reports its outcome, the emergency stop (src/job_applier/ops/emergency_stop.py) halts all
-- workers in one transaction, and the dashboard shows the browser to viewers through a filter that passes
-- input messages only from the owner of the takeover (src/job_applier/web/edge_auth.py). The hosts that the
-- browser may reach are checked (src/job_applier/automation/network_security.py).
--
-- How the code is modelled. A `Db` holds the tables as lists of rows, and each operation is a function
-- from its arguments, its reading of the clock and a `Db` to a `Db` and its answer. The queue's lock and
-- SQLite's write transaction make most of them one step of the program. Some are several transactions there
-- and are run here without an interruption: reconcile_stranded_jobs and repair_ambiguous_projections, one for
-- each job, handle_job_failure, reschedule_for_safety_gate and reconcile_submission_outcome, the transition and
-- then what follows it, and enqueue_notification, the alert and then its item of the outbox.
-- The runs of System also take the loops one transaction at a time. An UPDATE is `update_where`, its row count
-- `count_where`, and a SELECT with LIMIT 1 `find_where` or `best_where`. Random ids, the redaction of
-- texts and the answer of the artifact check on the disk are arguments. Times are numbers of seconds:
-- the texts that the program stores order as the times do. `utc` is the clock of the takeover fields and
-- `now` the local one. Exceptions are values of `Result`. Recursion is over lists, but for
-- the loop of the viewer's filter, which runs on fuel: it is given the length of its buffer, and each
-- message that it takes off has at least 4 bytes.
--
-- The files.
--   Base        names of the libraries, tests, texts, tables and their laws.
--   Queue/State, Queue/Db, Queue/Events     JobState, the tables, record_event and its projections.
--   Queue/Enqueue, Queue/Claim              enqueue_job; claim_next_job, renew_lease.
--   Queue/Transition                        transition_job.
--   Queue/Attempt, Queue/Complete           create_attempt, complete_attempt.
--   Queue/Intent, Queue/Fence               record_submit_intent, has_submit_permit;
--                                           begin_submit_click_fence.
--   Queue/Alert, Queue/Ambiguity            mark_job_ambiguous, its projection and its alert.
--   Queue/Failure                           handle_job_failure, reschedule_for_safety_gate.
--   Queue/Named, Queue/Cancel, Queue/Skip, Queue/Resolve, Queue/Requeue
--                                           cancel_job, skip_job, resolve_job,
--                                           requeue_auth_required_job.
--   Queue/Control, Queue/Takeover           pause, stop, the verification code; the takeover lease.
--   Queue/Outbox                            create_notification, enqueue_notification and the outbox.
--   Queue/Recovery                          reconcile_stranded_jobs, repair_ambiguous_projections,
--                                           clear_automation_state.
--   Queue/Lifecycle                         the abstract view: the moves of one job. The modules
--                                           named Moves say which moves an operation makes.
--   Adapters, Guard/Limits                  the controls of the adapters: canaries, enablement, limits.
--   Guard/Safety, Guard/Outcome             validate_pre_submit_safety; the permit, the intent and
--                                           reconcile_submission_outcome.
--   Ops/EmergencyStop                       emergency_stop, clear_emergency_stop.
--   Ops/DiskGuard                           check_disk_pressure, enforce_disk_pressure_guard.
--   Viewer/Handshake, Viewer/Rfb, Viewer/Relay
--                                           filter_rfb_client_messages; client_to_upstream.
--   Access/Jwks, Access/Token               JwksCache; verify_cf_access_jwt.
--   Network                                 is_ip_denied, resolve_and_validate_host,
--                                           validate_target_url.
--   System                                  runs of any operations in any order, and their laws.
--   Tests                                   a small queue and the theorems at work on it.
--
-- Not modelled: the texts of messages and details, the read-only queries of the dashboard, the state of
-- the browser in runtime_control, the thread that sends the outbox, the file system, the browser, the web
-- server's handlers with the length of a viewer's session, which floating-point clocks decide, the
-- decoding and the signatures of tokens, the scrapers and the command line.
pub mod Base
pub mod Adapters
pub mod Queue
pub mod Guard
pub mod Viewer
pub mod Network
pub mod Access
pub mod Ops
pub mod System
pub mod Tests
