-- ===== src/Jobs/Ci.antt =====
-- CI repair as far as deliveries and terminal results reach it, internal/dispatcher/ci_repair.go: the
-- policy, BeginCIWait and RecordCIEvent.
pub mod Laws
use signal_plane.Base.{
  ℕ, ◌+◌, ◌*◌, String, Bool, true, false, not, ◌&&◌, ◌||◌, List, [], ◌∷◌, Option, none, some,
  Result, ok, err, no_rows, ◌>>=◌, ◌>>◌, refuse, or_error, eqb, ltb, if◌then◌else◌, find, exists,
  select, update, ◌==◌, ◌<>◌, ◌^^◌, text_length, decimal, failure,
}
use signal_plane.Base.Int.{ℤ, pos, negsuc, ltb_ℤ, eqb_ℤ}
use signal_plane.Ledger.Model.{millis, listed}
use signal_plane.Ingress.{Signal}
use signal_plane.Dispatch.Waits.{WaitPolicy, digits}
use signal_plane.Jobs.{State, JobRow, ci_waiting, min}
use signal_plane.Jobs.Tables.{
  Db, CiTask, CiState, waiting_ci, repair_running, CiAttempt, CiWork, CiWorkState, work_queued,
  work_running, CiEvent,
}
use signal_plane.Jobs.Terminal.{Library, github_sha}

abbrev pub minute : ℕ
minute = 60_000_000_000

-- `CIRepairPolicy.Validate`
unfoldable pub is_valid_policy : WaitPolicy → Bool
is_valid_policy policy =
    let wake =
      if eqb policy.reconciliation_wake 0
      then policy.active_timeout
      else policy.reconciliation_wake in
    not (ltb wake minute)
    && not (ltb (10_080 * minute) wake)
    && not (ltb policy.active_timeout minute)
    && not (ltb (60 * minute) policy.active_timeout)
    && not (eqb policy.max_attempts 0)
    && not (ltb 2 policy.max_attempts)

-- `ciReconcileKey`
unfoldable pub ci_reconcile_key : ℕ → String → String
ci_reconcile_key job_id head = "ci-reconcile:v1:" ^^ decimal job_id ^^ ":" ^^ head

-- The arguments of BeginCIWait that come from the result.
pub record CiWait : Type 0 where
  pub pull_number : ℤ
  pub branch : String
  pub head_sha : String
  pub agent_model : String
  pub deadline : ℕ
  pub initial_result : String

unfoldable pub check_ci_wait : Library → JobRow → CiWait → ℕ → Result (Unit {0})
check_ci_wait lib job wait now =
    refuse
      (eqb job.id 0
        || job.repository == ""
        || ltb_ℤ job.issue_number (pos 1)
        || ltb_ℤ wait.pull_number (pos 1)
        || wait.branch == ""
        || not (github_sha wait.head_sha)
        || wait.agent_model == ""
        || not (ltb now wait.deadline)
        || wait.initial_result == ""
        || ltb 65_536 (text_length wait.initial_result)
        || not (lib.valid_json wait.initial_result))
      "CI wait requires durable job, PR, branch, exact head, agent/model, and future reconciliation wake"

abbrev pub task_of_job : ℕ → CiTask → Bool
task_of_job id task = eqb task.job_id id

abbrev pub ci_task : JobRow → CiWait → ℕ → CiTask
ci_task job wait now = record {
  job_id = job.id;
  repository = job.repository;
  issue_number = job.issue_number;
  pull_number = wait.pull_number;
  branch = wait.branch;
  current_head_sha = wait.head_sha;
  agent_model = wait.agent_model;
  state = waiting_ci;
  repair_attempts = 0;
  deadline_at = millis wait.deadline;
  initial_result_json = wait.initial_result;
  last_ci_state = "";
  created_at = millis now;
  updated_at = millis now;
}

-- The row of the job: the one that is there, or a new one.
abbrev pub stored_task : JobRow → CiWait → ℕ → List CiTask → CiTask
stored_task job wait now tasks = elim (find (task_of_job job.id) tasks) [
  | some task ↦ task
  | none ↦ ci_task job wait now
]

-- The comparison with the row that is stored. Its deadline is read back from milliseconds.
unfoldable pub same_wait : JobRow → CiWait → CiTask → Bool
same_wait job wait task =
    task.repository == job.repository
    && eqb_ℤ task.issue_number job.issue_number
    && eqb_ℤ task.pull_number wait.pull_number
    && task.branch == wait.branch
    && task.current_head_sha == wait.head_sha
    && task.agent_model == wait.agent_model
    && eqb (task.deadline_at * 1_000_000) wait.deadline
    && task.initial_result_json == wait.initial_result

abbrev pub place_task : JobRow → CiWait → ℕ → List CiTask → List CiTask
place_task job wait now tasks =
    if exists (task_of_job job.id) tasks then tasks else ci_task job wait now ∷ tasks

-- `status IN ('launched','ci_waiting')`
unfoldable pub may_wait_for_ci : State → Bool
may_wait_for_ci s = elim s [ State.launched ↦ true | State.ci_waiting ↦ true | _ ↦ false ]

abbrev pub work_at : ℕ → String → CiWork → Bool
work_at job_id head row = eqb row.job_id job_id && row.head_sha == head

abbrev pub ci_work_row : ℕ → String → ℕ → CiWork
ci_work_row job_id head now = record {
  operation_key = ci_reconcile_key job_id head;
  job_id = job_id;
  head_sha = head;
  state = work_queued;
  dirty = false;
  due_at = millis now;
  created_at = millis now;
  updated_at = millis now;
}

-- `BeginCIWait`
unfoldable pub begin_ci_wait : Library → JobRow → CiWait → ℕ → Db → Result Db
unfolding check_ci_wait same_wait may_wait_for_ci
begin_ci_wait lib job wait now db = do
  check_ci_wait lib job wait now
  refuse (not (same_wait job wait (stored_task job wait now db.ci_tasks)))
      "ready-for-review replay conflicts with durable CI coordinates"
  ok (record db {
    ci_tasks = place_task job wait now db.ci_tasks;
    jobs =
        update (λ row. eqb row.id job.id && may_wait_for_ci row.status)
          (λ row. record row {
            status = ci_waiting;
            due_at = millis wait.deadline;
            updated_at = millis now;
            last_error = "";
          })
          db.jobs;
    ci_work =
        if exists (work_at job.id wait.head_sha) db.ci_work
        then db.ci_work
        else ci_work_row job.id wait.head_sha now ∷ db.ci_work;
  })

-- `isCIWakeEvent`
unfoldable pub is_ci_wake_event : String → Bool
is_ci_wake_event event = listed ("check_run" ∷ "check_suite" ∷ "status" ∷ "pull_request" ∷ []) event

-- The number of the pull request, 0 for another object; `scan` is fmt.Sscan of an int64.
unfoldable pub pull_of : (String → Option ℤ) → Signal → Result ℤ
pull_of scan signal =
    if signal.meta.object_kind <> "pull_request"
    then ok (pos 0)
    else (or_error (scan signal.meta.object_id)
          (failure "CI event has invalid pull request identity")
        >>= λ number.
            refuse (ltb_ℤ number (pos 1)) "CI event has invalid pull request identity" >> ok number)

abbrev pub semantic_identity : Library → Signal → ℤ → String
semantic_identity lib signal pull =
    "github-ci-event/v1:"
    ^^ signal.meta.namespace
    ^^ ":"
    ^^ signal.meta.source_event
    ^^ ":"
    ^^ signal.meta.source_action
    ^^ ":"
    ^^ digits pull
    ^^ ":"
    ^^ signal.meta.source_revision
    ^^ ":sha256:"
    ^^ lib.sha256 signal.payload

abbrev pub ci_event : Library → Signal → ℤ → ℕ → CiEvent
ci_event lib signal pull now = record {
  delivery_id = signal.meta.source_delivery_id;
  repository = signal.meta.namespace;
  pull_number = pull;
  head_sha = signal.meta.source_revision;
  event_kind = signal.meta.source_event;
  action = signal.meta.source_action;
  semantic_identity = semantic_identity lib signal pull;
  payload_digest = "sha256:" ^^ lib.sha256 signal.payload;
  received_at = millis signal.meta.received_at;
  recorded_at = millis now;
}

-- The primary key and the unique index of repository_ci_events.
abbrev pub same_event : CiEvent → CiEvent → Bool
same_event event row =
    row.delivery_id == event.delivery_id || row.semantic_identity == event.semantic_identity

unfoldable pub is_waiting_ci : CiState → Bool
is_waiting_ci s = elim s [ CiState.waiting_ci ↦ true | _ ↦ false ]

unfoldable pub is_repair_running : CiState → Bool
is_repair_running s = elim s [ CiState.repair_running ↦ true | _ ↦ false ]

-- The tasks that an event concerns.
unfoldable pub is_target : CiEvent → CiTask → Bool
unfolding is_waiting_ci is_repair_running
is_target event task =
    task.repository == event.repository
    && (is_waiting_ci task.state || is_repair_running task.state)
    && ((ltb_ℤ (pos 0) event.pull_number && eqb_ℤ task.pull_number event.pull_number)
        || task.current_head_sha == event.head_sha)

-- A running attempt of a task whose repair runs, with a wait that was not resumed.
abbrev pub is_wakeable : List CiTask → CiAttempt → Bool
is_wakeable targets attempt =
    attempt.state == "running"
    && attempt.attempt_key <> ""
    && ltb attempt.resumed_external_wait_generation attempt.external_wait_generation
    && exists (λ (t : CiTask). eqb t.job_id attempt.job_id && is_repair_running t.state) targets

unfoldable pub wake_attempts : List CiTask → ℕ → List CiAttempt → List CiAttempt
unfolding is_repair_running
wake_attempts targets now attempts =
    update (is_wakeable targets)
      (λ attempt. record attempt {
        due_at = min attempt.due_at (millis now);
        updated_at = millis now;
      })
      attempts

unfoldable pub is_work_running : CiWorkState → Bool
is_work_running s = elim s [ CiWorkState.work_running ↦ true | _ ↦ false ]

-- ON CONFLICT(job_id,head_sha) DO UPDATE
unfoldable pub requeue_row : ℕ → CiWork → CiWork
unfolding is_work_running
requeue_row now row = record row {
  state = if is_work_running row.state then work_running else work_queued;
  dirty = if is_work_running row.state then true else row.dirty;
  due_at = millis now;
  updated_at = millis now;
}

unfoldable pub queue_work : String → ℕ → ℕ → List CiWork → List CiWork
unfolding requeue_row
queue_work head now job_id rows =
    if exists (work_at job_id head) rows
    then update (work_at job_id head) (requeue_row now) rows
    else ci_work_row job_id head now ∷ rows

-- The reconciliations of the tasks that wait.
unfoldable pub queue_targets : String → ℕ → List CiTask → List CiWork → List CiWork
unfolding queue_work is_repair_running
queue_targets head now [] rows = rows
queue_targets head now (task ∷ tasks) rows =
    queue_targets head now tasks
      (if is_repair_running task.state then rows else queue_work head now task.job_id rows)

-- What an event changes if it is new.
unfoldable pub place_event : CiEvent → ℕ → Db → Db
unfolding is_target wake_attempts queue_targets
place_event event now db =
    if exists (same_event event) db.ci_events
    then db
    else (let targets = select (is_target event) db.ci_tasks in
        record db {
          ci_events = event ∷ db.ci_events;
          ci_attempts = wake_attempts targets now db.ci_attempts;
          ci_work = queue_targets event.head_sha now targets db.ci_work;
        })

-- `RecordCIEvent`, without its answer, which process does not read.
unfoldable pub record_ci_event : Library → (String → Option ℤ) → Signal → ℕ → Db → Result Db
unfolding is_ci_wake_event pull_of place_event
record_ci_event lib scan signal now db = do
  refuse
      (signal.meta.source <> "github"
        || signal.meta.source_delivery_id == ""
        || signal.meta.namespace == ""
        || not (github_sha signal.meta.source_revision))
      "CI event lacks authenticated GitHub delivery, repository, or exact head identity"
  (if not (is_ci_wake_event signal.meta.source_event)
      then ok db
      else (pull_of scan signal >>= λ pull. ok (place_event (ci_event lib signal pull now) now db)))
