-- ===== src/System/Safety.antt =====
-- What holds of the jobs in every state that the broker can reach.
use service_broker_k8s.Base.{
  ◌≡◌, ◌≢◌, refl, ◌∙◌, arith, String, Option, none, some, List, [], ◌∷◌, ◌++◌, All,
}
use mathlib.Core.Path.{subst}
use service_broker_k8s.Errors.{Error, Result, ok, err, panic}
use service_broker_k8s.Env.{Env, answer}
use service_broker_k8s.Config.{ServiceBrokerConfig}
use service_broker_k8s.Registry.{Entry, get_string}
use service_broker_k8s.Registry.Key
use service_broker_k8s.Registry.Persistence.{KeepsSecrets}
use service_broker_k8s.Operation.{type_text, error_text, complete, Session}
use service_broker_k8s.Operation.Phases.{InPhase, completed, complete-get_string, complete-stored}
use service_broker_k8s.Provisioner.Creator.{run, run_creator}
use service_broker_k8s.Provisioner.Creator.Completes.{error_of, complete_with_lem}
use service_broker_k8s.Provisioner.Updater.{run_updates, run_updater}
use service_broker_k8s.Broker.Auth.{ServerConfiguration}
use service_broker_k8s.Broker.Handler.{Job, create_job, update_job, delete_job}
use service_broker_k8s.Broker.Jobs.{IsRecorded, job_entry, job_operation}
use service_broker_k8s.Broker.Jobs.Handlers.{serve_http-Keeps}
use service_broker_k8s.System.{
  System, run_job, after_job, serve, Step, request, background, informer, elsewhere, restart,
  Reachable, started, later,
}

All-remove :
    (P : Job → Type 0) (before : List Job) (j : Job) (after : List Job)
    → All P (before ++ j ∷ after)
    → P j × All P (before ++ after)
All-remove P [] j after (p, h) = (p, h)
All-remove P (x ∷ before) j after (p, h) =
    let (q, rest) = All-remove P before j after h in (q, (p, rest))

-- Each job that has not run works on an entry that records its operation.
abbrev pub JobsRecorded : {S : Type 0} → System S → Type 0
JobsRecorded b = All (λ j. IsRecorded j) b.pending

module _ (env : Env) (configuration : ServerConfiguration) (configuration_name : String)
    (laws : KeepsSecrets env) where
  after_job-JobsRecorded :
      (out : Result (Unit {0}) × Session env) (b : System env.State) (others : List Job)
      → All (λ j. IsRecorded j) others
      → JobsRecorded (after_job env out b others)
  after_job-JobsRecorded (ok _, (_, s)) b others h = h
  after_job-JobsRecorded (err _, (_, s)) b others h = h
  after_job-JobsRecorded (panic, (_, s)) b others h = tt

  Step-JobsRecorded :
      (b b' : System env.State)
      → JobsRecorded b
      → Step env configuration configuration_name b b'
      → JobsRecorded b'
  unfolding serve
  Step-JobsRecorded b b' h (request r route e) =
      rw e ((serve_http-Keeps env configuration r laws b.active.config route).at _ h)
  Step-JobsRecorded b b' h (background config before after j has e) = rw e (
      after_job-JobsRecorded (run_job env config j b.active.outside) b (before ++ after)
        (All-remove (λ x. IsRecorded x) before j after
          (subst (λ (jobs : List Job). All (λ x. IsRecorded x) jobs) has h)).1)
  Step-JobsRecorded b b' h (informer event e) = rw e h
  Step-JobsRecorded b b' h (elsewhere s e) = rw e h
  Step-JobsRecorded b b' h (restart e) = rw e tt

  -- In every state that the broker can reach, whatever requests, jobs, events of the configuration,
  -- restarts and changes of the cluster came before, each job that has not run works on an entry
  -- that records the operation of the job, under an ID.
  pub Reachable-JobsRecorded :
      (b : System env.State) → Reachable env configuration configuration_name b → JobsRecorded b
  Reachable-JobsRecorded b (started s) = tt
  Reachable-JobsRecorded b (later {b = a} r step) =
      Step-JobsRecorded a b (Reachable-JobsRecorded a r) step

module _ (env : Env) (configuration : ServerConfiguration) (configuration_name : String)
    (laws : KeepsSecrets env) where
  -- A job that is pending in a state that the broker can reach.
  pub pending-IsRecorded :
      (b : System env.State) (before after : List Job) (j : Job)
      → Reachable env configuration configuration_name b
      → b.pending ≡ before ++ j ∷ after
      → IsRecorded j
  pending-IsRecorded b before after j reached has =
      (All-remove (λ x. IsRecorded x) before j after
        (subst (λ (jobs : List Job). All (λ x. IsRecorded x) jobs) has
          (Reachable-JobsRecorded env configuration configuration_name laws b reached))).0

-- The part of a job before its operation is completed; a deletion completes none.
abbrev pub work :
    (env : Env) → ServiceBrokerConfig → Job → env.State → Option (Result (Unit {0}) × env.State)
work env config (create_job p e) s = some (run env config p e s)
work env config (update_job u e) s = some (run_updates env u s)
work env config (delete_job e) s = none

module _ (env : Env) where
  run_job-completes :
      (config : ServiceBrokerConfig) (j : Job) (s s' : env.State) (r : Result (Unit {0}))
      (y : Session env)
      → work env config j s ≡ some (r, s')
      → r ≢ panic
      → complete env (error_of r) (job_entry j, s') ≡ (ok tt, y)
      → run_job env config j s ≡ (ok tt, y)
  unfolding run_job run_creator run_updater
  run_job-completes config (create_job p e) s s' r y worked calm done =
      let out = run env config p e s in
      ground (arith, complete_with_lem env config out.0 out.1 e, worked, done)
  run_job-completes config (update_job u e) s s' r y worked calm done =
      let out = run_updates env u s in
      ground (arith, complete_with_lem env config out.0 out.1 e, worked, done)
  run_job-completes config (delete_job e) s s' r y worked calm done = cc

  -- What the end of a job leaves in the cluster: an entry with the operation of the job, under the
  -- ID that it had, and with a status.
  pub record Ended (j : Job) (status : Option Error) (s : env.State) : Type 0 where
    pub entry : Entry
    pub stored : env.get_secret entry.secret.namespace entry.secret.name s ≡ answer entry.secret
    pub id : String
    pub had : get_string Key.operation_id (job_entry j) ≡ ok (some id)
    pub phase : InPhase (completed (type_text (job_operation j)) id (error_text status)) entry

module _ (env : Env) (configuration : ServerConfiguration) (configuration_name : String)
    (laws : KeepsSecrets env) where
  -- In every state that the broker can reach, a creation or an update that is pending and runs
  -- without a panic ends its operation, if the registry can be written: the cluster then holds an
  -- entry with the job's operation under its ID, with the error of the run or the empty text as its
  -- status, and the job is no longer pending.
  pub pending_job-ends :
      (b : System env.State) (config : ServiceBrokerConfig) (before after : List Job) (j : Job)
      (r : Result (Unit {0})) (s s' : env.State) (e' : Entry)
      → Reachable env configuration configuration_name b
      → b.pending ≡ before ++ j ∷ after
      → work env config j b.active.outside ≡ some (r, s)
      → r ≢ panic
      → complete env (error_of r) (job_entry j, s) ≡ (ok tt, (e', s'))
      → (after_job env (run_job env config j b.active.outside) b (before ++ after)
          ≡ record { active = record b.active { outside = s' }; pending = before ++ after })
        × Ended env j (error_of r) s'
  pending_job-ends b config before after j r s s' e' reached has worked calm done =
      let recorded =
        pending-IsRecorded env configuration configuration_name laws b before after j reached has in
      let op = type_text (job_operation j) in
      let now = λ (k : String).
        complete-get_string env laws (error_of r) op (job_entry j) e' s s' k recorded.operation
          done in
      (
        rw (run_job-completes env config j b.active.outside s r (e', s') worked calm done) refl,
        record {
          entry = e';
          stored =
              complete-stored env laws (error_of r) op (job_entry j) e' s s' recorded.operation
                done;
          id = recorded.id;
          had = recorded.operation_id;
          phase = (
            now Key.operation ∙ recorded.operation,
            now Key.operation_id ∙ recorded.operation_id,
            now Key.operation_status,
          );
        },
      )
