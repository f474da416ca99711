-- ===== src/Jobs/Broker.antt =====
-- The broker as the dispatcher sees it: its answers and errors, internal/dispatcher/broker.go, and the
-- vocabulary of a run's status, internal/dispatcher/dispatcher.go. Its operations are parameters.
use signal_plane.Base.{
  ℕ, ◌≡◌, refl, ◌⊎◌, inl, inr, String, Bool, true, false, ◌||◌, [], ◌∷◌, Option, none, some, eqb,
  leb, if◌then◌else◌, ◌==◌, ◌<>◌, ◌&&◌, ◌^^◌, not, decimal,
}
use signal_plane.Base.Int.{ℤ}
use signal_plane.Ledger.Model.{listed}
use signal_plane.Dispatch.Waits.{ExternalWait}
use signal_plane.Jobs.{State, JobRow, launched, completed, failed, timed_out, stopped, cancelled}
use signal_plane.Jobs.Tables.{TerminalResult}

pub record BrokerError : Type 0 where
  pub status : ℕ
  pub code : String
  pub message : String
  pub transport : Bool
  pub malformed : Bool

-- An error of a call: a BrokerError, or another one with its text.
pub data Failure : Type 0 where
  of_broker : BrokerError → Failure
  other : String → Failure

-- `IsRetryable`
unfoldable pub is_retryable : Failure → Bool
is_retryable (of_broker e) =
    e.transport || eqb e.status 429 || leb 500 e.status || e.code == "profile_busy"
is_retryable (other text) = false

abbrev pub failure_text : Failure → String
failure_text (of_broker e) = e.message
failure_text (other text) = text

abbrev pub rejected : BrokerError → String
rejected e = "sandbox broker rejected the launch with HTTP " ^^ decimal e.status

-- `safeLaunchFailureReason`
unfoldable pub launch_failure_reason : Failure → String
launch_failure_reason (other text) = "sandbox broker launch failed before acknowledging a run"
launch_failure_reason (of_broker e) =
    if e.transport
    then "sandbox broker transport failed before acknowledging a run"
    else (if not (eqb e.status 0) && e.code <> ""
        then rejected e ^^ " (" ^^ e.code ^^ ")"
        else (if not (eqb e.status 0)
            then rejected e
            else (if e.malformed
                then "sandbox broker returned an invalid launch response"
                else "sandbox broker launch failed before acknowledging a run")))

-- The value of a call, or its error.
pub data Answer {ℓ} (A : Type ℓ) : Type ℓ where
  failing : Failure → Answer A
  answered : A → Answer A

pub Answer-cases {ℓ} :
    {A : Type ℓ} (a : Answer A)
    → ((e : Failure) × (a ≡ failing e)) ⊎ ((value : A) × (a ≡ answered value))
Answer-cases (failing e) = inl (e, refl)
Answer-cases (answered value) = inr (value, refl)

-- RunStatus, with the fields that are read.
pub record RunStatus : Type 0 where
  pub run_id : String
  pub status : String
  pub external_wait : Option ExternalWait

-- A broker, with the operations that not every one has: the projection of a terminal result, the
-- resume of a run, and the comment of a reporter.
pub record Broker : Type 0 where
  pub launch : JobRow → Answer String
  pub status : String → Answer RunStatus
  pub terminal_result : Option (String → Answer TerminalResult)
  pub resume : Option (String → String → ℕ → Answer RunStatus)
  pub comment : Option (JobRow → String → String → Answer (ℤ × String))

-- `ReconciledStatus`; `none` is a status that is not known.
unfoldable pub reconciled_status : String → Option State
reconciled_status status =
    if listed ("accepted" ∷ "queued" ∷ "pending" ∷ "launching" ∷ "running" ∷ "in_progress" ∷ [])
      status
    then some launched
    else (if listed ("completed" ∷ "succeeded" ∷ "success" ∷ []) status
        then some completed
        else (if listed ("failed" ∷ "error" ∷ []) status
            then some failed
            else (if listed ("timed_out" ∷ "timeout" ∷ []) status
                then some timed_out
                else (if status == "stopped"
                    then some stopped
                    else (if listed ("cancelled" ∷ "canceled" ∷ []) status
                        then some cancelled
                        else none)))))

abbrev pub unknown_status : Failure
unknown_status = of_broker (record {
  status = 0;
  code = "";
  message = "broker returned unknown run status";
  transport = false;
  malformed = true;
})
