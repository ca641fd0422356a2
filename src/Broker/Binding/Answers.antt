-- ===== src/Broker/Binding/Answers.antt =====
-- handleCreateServiceBinding of pkg/broker/handlers.go: what the creation of a binding answers.
use service_broker_k8s.Base.{
  String, ◌==◌, if◌then◌else◌, ◌≡◌, ◌≢◌, refl, Option, none, some, or_default, test_of_ne, ap, ◌∙◌,
  arith,
}
use service_broker_k8s.Errors.{Error, Result, ok, err, panic, message}
use service_broker_k8s.Json.{Bytes}
use service_broker_k8s.Env.{Env}
use service_broker_k8s.Config.{ServiceBrokerConfig}
use service_broker_k8s.Http.{Request, CreateServiceBindingRequest, json_error, binding_read}
use service_broker_k8s.Registry.{Entry, get_string, get_raw, get, find, clone}
use service_broker_k8s.Registry.Key
use service_broker_k8s.Registry.Persistence.{KeepsSecrets}
use service_broker_k8s.Operation.{
  provision, start, complete, finish, type_text, error_text, commit_entry,
}
use service_broker_k8s.Operation.Phases.{
  InPhase, idle, start-get_string, complete-get_string, finish_transition,
}
use service_broker_k8s.Provisioner.{binding_resource}
use service_broker_k8s.Provisioner.Creator.{Creator, new_creator, run, run_creator}
use service_broker_k8s.Provisioner.Creator.Completes.{error_of, complete_with_lem}
use service_broker_k8s.Provisioner.Prepare.{prepare_creator}
use service_broker_k8s.Broker.Record.{binding_record}
use service_broker_k8s.Broker.Binding.{new_binding, binding_result, error_of_format}
use service_broker_k8s.Broker.Guards.Delete.{start_idle_only}
use service_broker_k8s.Broker.Handler.{Ctx, next, returned, answered}
use service_broker_k8s.Broker.Steps.{response}
use service_broker_k8s.Broker.Steps.Laws.{apply_done, goes_on, goes_attempt, goes_lookup}

module _ (env : Env) (config : ServiceBrokerConfig) (r : Request)
    (request : CreateServiceBindingRequest) (instance_entry entry : Entry) where
  -- A creation that gets to its end: each step but the run of the provisioner succeeds.
  pub record Ends (s0 s5 : env.State) (result : Result (Unit {0})) (started ended : Entry)
      : Type 0 where
    pub recorded : Entry
    pub committed : Entry
    pub prepared : Entry
    pub ran : Entry
    pub creator : Creator
    pub s1 : env.State
    pub s2 : env.State
    pub s3 : env.State
    pub s4 : env.State
    pub records :
        binding_record env r.binding_id request.context request.parameters instance_entry entry
        ≡ ok recorded
    pub commits : commit_entry env (recorded, s0) ≡ (ok tt, (committed, s1))
    pub prepares :
        prepare_creator env config (new_creator binding_resource) committed ≡ ok (prepared, creator)
    pub starts : start env provision (prepared, s1) ≡ (ok tt, (started, s2))
    pub runs : run env config creator started s2 ≡ (result, s3)
    pub calm : result ≢ panic
    pub completes : complete env (error_of result) (started, s3) ≡ (ok tt, (ran, s4))
    pub finishes : finish env (ran, s4) ≡ (ok tt, (ended, s5))

  module _ (laws : KeepsSecrets env) (result : Result (Unit {0})) (started ended : Entry)
      (c : Ctx env.State) (s5 : env.State) where
    ran_lem :
        (x : Ends c.outside s5 result started ended)
        → run_creator env config x.creator (started, x.s2) ≡ (ok tt, (x.ran, x.s4))
    unfolding run_creator
    ran_lem x =
        ground (arith, complete_with_lem env config result x.s3 started x.calm, x.runs, x.completes)

    started_operation :
        (x : Ends c.outside s5 result started ended)
        → get_string Key.operation started ≡ ok (some (type_text provision))
    started_operation x =
        (start-get_string env laws provision x.prepared started x.s1 x.s2 x.starts
          (start_idle_only env provision x.prepared x.s1 (ap (λ o. o.0) x.starts))).0

    now :
        (x : Ends c.outside s5 result started ended) (k : String)
        → get_string k x.ran ≡ (
            if Key.operation_status == k
            then ok (some (error_text (error_of result)))
            else get_string k started)
    now x k =
        complete-get_string env laws (error_of result) (type_text provision) started x.ran x.s3 x.s4
          k (started_operation x) x.completes

    ended-idle : Ends c.outside s5 result started ended → InPhase idle ended
    ended-idle x =
        (finish_transition env laws (type_text provision) x.ran ended x.s4 s5
          (now x Key.operation ∙ started_operation x) x.finishes).0

    new_binding-result :
        Ends c.outside s5 result started ended
        → new_binding env config r request instance_entry entry c
          ≡ binding_result env
              (error_text (error_of result))
              (clone started)
              (record c { outside = s5 })
    unfolding new_binding
    new_binding-result x = goes_attempt _ json_error _ x.recorded c x.records (
        goes_on _ _ x.committed (record c { outside = x.s1 })
          (apply_done env json_error (commit_entry env) x.recorded x.committed c x.s1 x.commits)
          (goes_attempt _ json_error _ (x.prepared, x.creator) (record c { outside = x.s1 })
            x.prepares
            (goes_on _ _ started (record c { outside = x.s2 })
              (apply_done env json_error (start env provision) x.prepared started
                (record c { outside = x.s1 }) x.s2 x.starts)
              (goes_on _ _ x.ran (record c { outside = x.s4 })
                (apply_done env json_error (run_creator env config x.creator) started x.ran
                  (record c { outside = x.s2 }) x.s4 (ran_lem x))
                (goes_lookup _ _ _ (error_text (error_of result)) (record c { outside = x.s4 })
                  (now x Key.operation_status)
                  (goes_on _ _ ended (record c { outside = s5 })
                    (apply_done env json_error (finish env) x.ran ended
                      (record c { outside = x.s4 }) s5 x.finishes)
                    refl))))))

    get_raw-clone : (k : String) (e : Entry) → get_raw env k (clone e) ≡ get_raw env k e
    unfolding get_raw get find clone
    get_raw-clone k e = refl

    -- A creation of a binding that gets to its end, and whose run succeeds, answers with one
    -- response, which is 201 with the credentials of the entry as it was before the run, and leaves
    -- the entry without an operation and starts no job.
    pub new_binding-credentials :
        (credentials : Option (Option Bytes))
        → Ends c.outside s5 result started ended
        → result ≡ ok tt
        → get_raw env Key.credentials started ≡ ok credentials
        → (new_binding env config r request instance_entry entry c
            ≡ (next tt, answered (response 201 (binding_read (or_default credentials none))) s5 c))
          × InPhase idle ended
    unfolding error_text
    new_binding-credentials credentials x passed held = (
      new_binding-result x
          ∙ rw passed (
              goes_attempt _ json_error _ credentials (record c { outside = s5 })
                (get_raw-clone Key.credentials started ∙ held) refl),
      ended-idle x,
    )

    -- A creation of a binding that gets to its end, and whose run fails with an error that has a
    -- text, answers with one response, which is the error of the configuration with what
    -- `fmt.Sprintf` makes of that text as a format, which is the text itself where it has no `%`. It
    -- leaves the entry of the binding without an operation, as after a success, and starts no job.
    pub new_binding-fails :
        (e : Error)
        → Ends c.outside s5 result started ended
        → result ≡ err e
        → message e ≢ ""
        → (new_binding env config r request instance_entry entry c
            ≡ (returned, answered (json_error (error_of_format env (message e))) s5 c))
          × InPhase idle ended
    unfolding error_text
    new_binding-fails e x failed worded =
        (new_binding-result x ∙ rw (failed, test_of_ne worded) refl, ended-idle x)
