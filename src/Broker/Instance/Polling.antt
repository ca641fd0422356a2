-- ===== src/Broker/Instance/Polling.antt =====
-- handlePollServiceInstance of pkg/broker/handlers.go: what a poll of an operation answers.
use service_broker_k8s.Base.{
  String, true, false, ◌≡◌, ◌≢◌, ap, none, some, ◌++◌, ◌∷◌, [], ◌==◌, eq_refl, test_of_ne,
  if◌then◌else◌,
}
use service_broker_k8s.Errors.{ok}
use service_broker_k8s.Env.{Env}
use service_broker_k8s.Registry.{Entry, new, get_string}
use service_broker_k8s.Registry.Key
use service_broker_k8s.Registry.Persistence.{KeepsSecrets}
use service_broker_k8s.Operation.{finish}
use service_broker_k8s.Operation.Phases.{InPhase, idle, completed, finish_transition}
use service_broker_k8s.Http.{json_error, Request, instance_polled, succeeded, failed}
use service_broker_k8s.Broker.{mayget_single_parameter, get_single_parameter}
use service_broker_k8s.Broker.Auth.{ServerConfiguration}
use service_broker_k8s.Broker.Instance.{poll_service_instance}
use service_broker_k8s.Broker.Handler.{Ctx, next, follow, respond}
use service_broker_k8s.Broker.Steps.{namespace_of_instance, response}
use service_broker_k8s.Broker.Steps.Laws.{apply_done}

module _ (env : Env) (configuration : ServerConfiguration) where
  -- A poll for the operation `id` of an instance that exists; the query names no service and plan.
  pub record IsPoll (r : Request) (id : String) (entry : Entry) (s : env.State) : Type 0 where
    pub named : r.instance_id ≢ ""
    pub found :
        new env Key.service_instance
          (namespace_of_instance env configuration r s)
          r.instance_id
          false
          s
        ≡ ok entry
    pub exists : entry.exists ≡ true
    pub no_service : mayget_single_parameter r "service_id" ≡ ok none
    pub no_plan : mayget_single_parameter r "plan_id" ≡ ok none
    pub given : get_single_parameter r "operation" ≡ ok id
    pub service : String
    pub plan : String
    pub has_service : get_string Key.service_id entry ≡ ok (some service)
    pub has_plan : get_string Key.plan_id entry ≡ ok (some plan)

  -- A poll of an operation that has completed, whose end can be written, answers with one response:
  -- that it has succeeded where its status is empty, and that it has failed with its status
  -- otherwise. It leaves the entry without an operation.
  pub poll_service_instance-reports :
      (laws : KeepsSecrets env) (r : Request) (op id status : String) (entry e' : Entry)
      (c : Ctx env.State) (s' : env.State)
      → IsPoll r id entry c.outside
      → InPhase (completed op id status) entry
      → finish env (entry, c.outside) ≡ (ok tt, (e', s'))
      → (poll_service_instance env configuration r c ≡ (
        next tt,
        record {
          outside = s';
          responses =
              c.responses
              ++ response 200 (
                  if status == ""
                  then instance_polled succeeded ""
                  else instance_polled failed status)
                ∷ [];
          jobs = c.jobs;
        },
      ))
        × InPhase idle e'
  unfolding poll_service_instance
  poll_service_instance-reports laws r op id status entry e' c s' p (has_op, has_id, has_status)
        ended =
      (
        simp
            (
              test_of_ne p.named,
              p.found,
              p.exists,
              p.no_service,
              p.no_plan,
              p.given,
              p.has_service,
              p.has_plan,
              has_id,
              eq_refl id,
              has_status,
            )
            (ap
              (follow (λ (x : Entry). respond (
                response 200 (
                  if status == ""
                  then instance_polled succeeded ""
                  else instance_polled failed status))))
              (apply_done env json_error (finish env) entry e' c s' ended)),
        (finish_transition env laws op entry e' c.outside s' has_op ended).0,
      )
