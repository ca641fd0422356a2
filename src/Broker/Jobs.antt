-- ===== src/Broker/Jobs.antt =====
-- The jobs that the handlers of pkg/broker/handlers.go start, and the rules for what a handler keeps
-- true of them.
pub mod Starts
pub mod Handlers
use service_broker_k8s.Base.{
  String, Bool, true, false, ◌≡◌, refl, Option, none, some, List, [], ◌∷◌, ◌++◌, if◌then◌else◌, All,
  All-append_one,
}
use service_broker_k8s.Errors.{Error, Result, ok, err, panic}
use service_broker_k8s.Exec.{Exec}
use service_broker_k8s.Env.{Env}
use service_broker_k8s.Http.{Response, json_error}
use service_broker_k8s.Registry.{Entry, get_string}
use service_broker_k8s.Registry.Key
use service_broker_k8s.Operation.{OperationType, provision, update, deprovision, type_text, Session}
use service_broker_k8s.Broker.Handler.{
  Job, create_job, update_job, delete_job, Ctx, writes, start_job,
}
use service_broker_k8s.Broker.Handler.Rules.{IsKept}
use service_broker_k8s.Broker.Handler.Keeps.{Keeps}

-- The entry that a job works on, and the operation that it carries out.
abbrev pub job_entry : Job → Entry
job_entry (create_job _ e) = e
job_entry (update_job _ e) = e
job_entry (delete_job e) = e

abbrev pub job_operation : Job → OperationType
job_operation (create_job _ _) = provision
job_operation (update_job _ _) = update
job_operation (delete_job _) = deprovision

-- An entry that records an operation of a type in progress, under an ID.
pub record Records (t : OperationType) (e : Entry) : Type 0 where
  pub operation : get_string Key.operation e ≡ ok (some (type_text t))
  pub id : String
  pub operation_id : get_string Key.operation_id e ≡ ok (some id)

-- A job whose entry records the operation that it carries out.
abbrev pub IsRecorded : Job → Type 0
IsRecorded j = Records (job_operation j) (job_entry j)

-- Where the jobs that were started before are recorded, those that are started after are too.
abbrev pub StaysRecorded : {S : Type 0} → Ctx S → Ctx S → Type 0
StaysRecorded c c' = All IsRecorded c.jobs → All IsRecorded c'.jobs

module _ {S : Type 0} where
  pub StaysRecorded-IsKept : IsKept (StaysRecorded {S = S})
  StaysRecorded-IsKept = record {
    same = λ a h. h;
    chain = λ a b c h k x. k (h x);
    responding = λ a r h. h;
  }

  pub writes-Keeps : {A : Type 0} (f : S → A × S) → Keeps StaysRecorded (writes f)
  writes-Keeps f = record { at = λ c h. h }

  pub start_job-Keeps : (j : Job) → IsRecorded j → Keeps (StaysRecorded {S = S}) (start_job j)
  start_job-Keeps j recorded = record {
    at = λ c h. All-append_one (λ x. IsRecorded x) c.jobs j h recorded;
  }
