-- ===== src/System.antt =====
-- The broker as it runs: requests (pkg/broker), jobs in the background (the `go` statements of
-- pkg/broker/handlers.go), the informer of the configuration (pkg/config) and everybody else who
-- changes the cluster, in any order. A job runs as one step, and others may act before and after it.
pub mod Safety
pub mod Serves
pub mod Polls
pub mod Deletions
use service_broker_k8s.Base.{◌≡◌, String, Option, none, List, [], ◌∷◌, ◌++◌}
use service_broker_k8s.Errors.{Result, ok, err, panic}
use service_broker_k8s.Exec.{Exec}
use service_broker_k8s.Env.{Env}
use service_broker_k8s.Config.{ServiceBrokerConfig}
use service_broker_k8s.Config.Controller.{Active, Event, handle}
use service_broker_k8s.Http.{Request}
use service_broker_k8s.Operation.{Session}
use service_broker_k8s.Provisioner.Creator.{run_creator, run_deleter}
use service_broker_k8s.Provisioner.Updater.{run_updater}
use service_broker_k8s.Broker.Auth.{ServerConfiguration}
use service_broker_k8s.Broker.Handler.{Job, create_job, update_job, delete_job, Ctx}
use service_broker_k8s.Broker.Server.{Route, serve_http}

-- The state outside, the configuration that is active, and the jobs that have not run yet.
pub record System (S : Type 0) : Type 0 where
  pub active : Active S
  pub pending : List Job

module _ (env : Env) where
  open env use {State}

  -- A process that starts: it has no configuration and no jobs.
  abbrev pub boot : State → System State
  boot s = record { active = record { config = none; outside = s }; pending = [] }

  -- `Run` of the job's provisioner, with the configuration that its readiness checks read.
  unfoldable pub run_job : ServiceBrokerConfig → Job → State → Result (Unit {0}) × Session env
  unfolding run_creator run_updater run_deleter
  run_job config (create_job p e) s = run_creator env config p (e, s)
  run_job config (update_job u e) s = run_updater env u (e, s)
  run_job config (delete_job e) s = run_deleter env (e, s)

  -- A panic of a job ends the process, with all that it holds.
  abbrev pub after_job : Result (Unit {0}) × Session env → System State → List Job → System State
  after_job (panic, (_, s)) b others = boot s
  after_job (_, (_, s)) b others = record {
    active = record b.active { outside = s };
    pending = others;
  }

  -- A request, answered by `ServeHTTP`; the jobs that it starts become pending.
  unfoldable pub serve : ServerConfiguration → Request → Route → System State → System State
  unfolding serve_http
  serve configuration r route b =
      let (_, c) =
        serve_http env configuration b.active.config r route
          (record { outside = b.active.outside; responses = []; jobs = b.pending }) in
      record { active = record b.active { outside = c.outside }; pending = c.jobs }

  module _ (configuration : ServerConfiguration) (configuration_name : String) where
    pub data Step (b b' : System State) : Type 0 where
      request : (r : Request) (route : Route) → b' ≡ serve configuration r route b → Step b b'
      background :
          (config : ServiceBrokerConfig) (before after : List Job) (j : Job)
          → b.pending ≡ before ++ j ∷ after
          → b' ≡ after_job (run_job config j b.active.outside) b (before ++ after)
          → Step b b'
      informer :
          (event : Event)
          → b' ≡ record b { active = handle env configuration_name event b.active }
          → Step b b'
      elsewhere :
          (s : State) → b' ≡ record b { active = record b.active { outside = s } } → Step b b'
      restart : b' ≡ boot b.active.outside → Step b b'

    pub data Reachable : System State → Type 0 where
      started : (s : State) → Reachable (boot s)
      later : {b b' : System State} → Reachable b → Step b b' → Reachable b'
