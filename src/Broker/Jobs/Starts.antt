-- ===== src/Broker/Jobs/Starts.antt =====
-- operation.Start in the handlers of pkg/broker/handlers.go: what an entry holds when its job starts.
use service_broker_k8s.Base.{All, ◌≡◌, ap, sym, ◌∙◌}
use service_broker_k8s.Errors.{Error}
use service_broker_k8s.Env.{Env}
use service_broker_k8s.Http.{Response}
use service_broker_k8s.Registry.{Entry}
use service_broker_k8s.Registry.Persistence.{KeepsSecrets}
use service_broker_k8s.Operation.{OperationType, start}
use service_broker_k8s.Operation.Phases.{start-get_string}
use service_broker_k8s.Broker.Handler.{Ctx, Handler, next, ◌>>=◌}
use service_broker_k8s.Broker.Handler.Rules.{ends_step}
use service_broker_k8s.Broker.Steps.{apply_with}
use service_broker_k8s.Broker.Guards.Delete.{start_idle_only}
use service_broker_k8s.Broker.Steps.Laws.{apply_ok, apply_ran, apply-SameJobs}
use service_broker_k8s.Broker.Jobs.{Records, IsRecorded, StaysRecorded}
use service_broker_k8s.Broker.Handler.Keeps.{Keeps}

module _ (env : Env) where
  start-Records :
      (laws : KeepsSecrets env) (t : OperationType) (f : Error → Response) (e e' : Entry)
      (c c' : Ctx env.State)
      → apply_with env f (start env t) e c ≡ (next e', c')
      → Records t e'
  start-Records laws t f e e' c c' h =
      let (op, id, _) =
        start-get_string env laws t e e' c.outside c'.outside
          (apply_ran env f (start env t) e e' c c' h)
          (start_idle_only env t e c.outside (apply_ok env f (start env t) e e' c c' h)) in
      record { operation = op; id = (env.new_uuid c.outside).0; operation_id = id }

  -- What follows a start may use that the entry records the operation.
  pub start-Keeps :
      {B : Type 0} (laws : KeepsSecrets env) (t : OperationType) (f : Error → Response) (e : Entry)
      (k : Entry → Handler env.State B)
      → ((e' : Entry) → Records t e' → Keeps StaysRecorded (k e'))
      → Keeps StaysRecorded (apply_with env f (start env t) e >>= k)
  start-Keeps laws t f e k hk = record {
    at = λ c h.
        let same = apply-SameJobs env f (start env t) e c in
        ends_step (λ d. All (λ j. IsRecorded j) d.jobs) k (apply_with env f (start env t) e c)
          (rw same h)
          λ e' c' went.
            (hk e' (start-Records laws t f e e' c c' went)).at c'
              (rw (ap (λ o. o.1.jobs) (sym went) ∙ same) h);
  }
