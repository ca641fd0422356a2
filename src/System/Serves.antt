-- ===== src/System/Serves.antt =====
-- What the broker serves requests with, in every state that it can reach.
use service_broker_k8s.Base.{
  String, true, ◌≡◌, ◌⊎◌, inl, inr, refl, sym, Option, none, some, List, [], arith,
}
use mathlib.Core.Path.{subst}
use service_broker_k8s.Errors.{Result, ok, err, panic}
use service_broker_k8s.Env.{Env}
use service_broker_k8s.Config.{ServiceBrokerConfig}
use service_broker_k8s.Config.Controller.Laws.{
  IsServable, starts, steps, changes, Reachable-IsServable,
}
use service_broker_k8s.Config.Controller.Laws
use service_broker_k8s.Config.Validation.{validate}
use service_broker_k8s.Http.{Request}
use service_broker_k8s.Operation.{Session}
use service_broker_k8s.Broker.Auth.{ServerConfiguration, passed, check_request_headers}
use service_broker_k8s.Broker.Handler.{Job}
use service_broker_k8s.Broker.Server.{Route, is_open_path}
use service_broker_k8s.Broker.Guards.{IsServed, serve_http-guards}
use service_broker_k8s.System.{
  System, run_job, after_job, serve, Step, request, background, informer, elsewhere, restart,
  Reachable, started, later,
}

module _ (env : Env) (configuration : ServerConfiguration) (configuration_name : String) where
  -- The controller's part of a state.
  Controlled : System env.State → Type 0
  Controlled b = Laws.Reachable env configuration_name b.active

  after_job-Controlled :
      (out : Result (Unit {0}) × Session env) (b : System env.State) (others : List Job)
      → Controlled b
      → Controlled (after_job env out b others)
  unfolding Controlled
  after_job-Controlled (ok _, (_, s)) b others h = changes s b.active h
  after_job-Controlled (err _, (_, s)) b others h = changes s b.active h
  after_job-Controlled (panic, (_, s)) b others h = starts s

  Step-Controlled :
      (b b' : System env.State)
      → Controlled b
      → Step env configuration configuration_name b b'
      → Controlled b'
  unfolding Controlled serve
  Step-Controlled b b' h (request r route e) = subst Controlled (sym e) (changes _ b.active h)
  Step-Controlled b b' h (background config before after j has e) =
      subst Controlled (sym e) (after_job-Controlled (run_job env config j b.active.outside) b _ h)
  Step-Controlled b b' h (informer event e) = subst Controlled (sym e) (steps event b.active h)
  Step-Controlled b b' h (elsewhere s e) = subst Controlled (sym e) (changes s b.active h)
  Step-Controlled b b' h (restart e) = subst Controlled (sym e) (starts b.active.outside)

  Reachable-Controlled :
      (b : System env.State) → Reachable env configuration configuration_name b → Controlled b
  unfolding Controlled
  Reachable-Controlled b (started s) = starts s
  Reachable-Controlled b (later {b = a} r step) =
      Step-Controlled a b (Reachable-Controlled a r) step

  -- What a request is served with.
  pub record IsAnswered (b : System env.State) (r : Request) : Type 0 where
    pub config : ServiceBrokerConfig
    pub active : b.active.config ≡ some config
    pub valid : validate config ≡ ok tt
    pub named : config.name ≡ configuration_name
    pub admitted :
        (is_open_path r.path ≡ true) ⊎ (check_request_headers env configuration r ≡ passed)

  IsServed-IsAnswered :
      (b : System env.State) (r : Request) (o : Option ServiceBrokerConfig)
      → b.active.config ≡ o
      → IsServable configuration_name o
      → IsServed env configuration o r
      → IsAnswered b r
  IsServed-IsAnswered b r none active servable (some_config, _) =
      absurd (ground (arith, some_config))
  IsServed-IsAnswered b r (some config) active (valid, named) (_, admitted) = record {
    config = config;
    active = active;
    valid = valid;
    named = named;
    admitted = admitted;
  }

  -- In every state that the broker can reach, whatever came before, a request leaves the state as it
  -- is unless the active configuration is valid and has the name that the broker looks for, and the
  -- path of the request is open to all or its headers pass every check.
  pub Reachable-serves :
      (b : System env.State) (r : Request) (route : Route)
      → Reachable env configuration configuration_name b
      → (serve env configuration r route b ≡ b) ⊎ IsAnswered b r
  unfolding serve Controlled
  Reachable-serves b r route reached =
      elim (serve_http-guards env configuration b.active.config r route
        (record { outside = b.active.outside; responses = []; jobs = b.pending })) [
          | inl (same, same_jobs) ↦ inl (rw (same, same_jobs) refl)
          | inr served ↦ inr (
              IsServed-IsAnswered b r b.active.config refl
                (Reachable-IsServable env configuration_name b.active
                  (Reachable-Controlled b reached))
                served)
        ]
