-- ===== src/Ingress/Shadow.antt =====
-- internal/shadowadmit/shadowadmit.go: admission that launches nothing.
use signal_plane.Base.{ℕ, String, Bool, false, not, Result, ok, ◌>>=◌, ◌>>◌, refuse, ◌==◌}
use signal_plane.Ledger.Model.{Codec, Event, AdmissionResult}
use signal_plane.Ledger.Agent.{AgentBinding, reject_admission_selection}
use signal_plane.Ledger.Store.{Db}
use signal_plane.Ledger.Admit.{admit_with_agent}

pub record Candidate : Type 0 where
  pub route_snapshot_id : String
  pub event : Event
  pub binding : AgentBinding

pub record Outcome : Type 0 where
  pub work_item_id : String
  pub event_id : String
  pub duplicate : Bool
  pub agent_type : String
  pub agent_mode : String
  pub type_contract_revision : String
  pub launched : Bool

abbrev pub outcome_of : AdmissionResult → Outcome
outcome_of result = record {
  work_item_id = result.work_item.id;
  event_id = result.event_id;
  duplicate = result.duplicate;
  agent_type = result.work_item.agent_type;
  agent_mode = result.work_item.agent_mode;
  type_contract_revision = result.work_item.type_contract_revision;
  launched = false;
}

-- `Shadow.Admit`; the store it writes to is the ledger.
unfoldable pub shadow_admit :
    Bool → Codec → Candidate → ℕ → String → String → Db → Result (Outcome × Db)
shadow_admit enabled codec candidate now work_id event_id db = do
  refuse (not enabled) "shadow admission is disabled"
  refuse (candidate.route_snapshot_id == "") "shadow admission requires a route snapshot id"
  reject_admission_selection candidate.binding
  (result, db') ←
      admit_with_agent codec candidate.route_snapshot_id candidate.event candidate.binding now
        work_id event_id db
  ok (outcome_of result, db')
