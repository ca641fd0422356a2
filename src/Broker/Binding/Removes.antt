-- ===== src/Broker/Binding/Removes.antt =====
-- handleDeleteServiceBinding of pkg/broker/handlers.go: what a request to unbind does and answers.
use service_broker_k8s.Base.{Bool, false, ◌≡◌, ◌≢◌, refl, arith, test_of_ne, eq_refl}
use service_broker_k8s.Errors.{Error, Result, ok, err}
use service_broker_k8s.Env.{Env}
use service_broker_k8s.Http.{Request, json_error, empty_object}
use service_broker_k8s.Registry.{Entry, delete, new, resource_name}
use service_broker_k8s.Registry.Key
use service_broker_k8s.Registry.Persistence.{KeepsSecrets, new-delete}
use service_broker_k8s.Provisioner.Creator.{run_deleter}
use service_broker_k8s.Broker.Auth.{ServerConfiguration}
use service_broker_k8s.Broker.Binding.{delete_service_binding}
use service_broker_k8s.Broker.Guards.Bind.{IsUnbindable}
use service_broker_k8s.Broker.Handler.{Ctx, next, answered, respond}
use service_broker_k8s.Broker.Steps.{response}
use service_broker_k8s.Broker.Steps.Laws.{
  fail_if_passes, not_of, apply_done, goes_on, goes_attempt, goes_lookup,
}

module _ (env : Env) where
  pub run_deleter_lem :
      (e : Entry) (s s' : env.State) (result : Result (Unit {0}))
      → delete env e s ≡ (result, s')
      → run_deleter env (e, s) ≡ (ok tt, (e, s'))
  unfolding run_deleter
  run_deleter_lem e s s' result h = ground arith

  module _ (configuration : ServerConfiguration) where
    delete_service_binding-answers :
        (r : Request) (c : Ctx env.State) (s' : env.State) (result : Result (Unit {0}))
        → r.instance_id ≢ ""
        → r.binding_id ≢ ""
        → (u : IsUnbindable env configuration r c.outside)
        → delete env u.entry c.outside ≡ (result, s')
        → delete_service_binding env configuration r c
          ≡ (next tt, answered (response 200 empty_object) s' c)
    unfolding delete_service_binding
    delete_service_binding-answers r c s' result named identified u deleted =
        let as_is = json_error in
        goes_attempt _ as_is _ tt c (fail_if_passes _ (test_of_ne named)) (
          goes_attempt _ as_is _ u.instance_entry c u.has_instance (
            goes_attempt _ as_is _ tt c (fail_if_passes _ (not_of u.instance_exists)) (
              goes_attempt _ as_is _ tt c (fail_if_passes _ (test_of_ne identified)) (
                goes_attempt _ as_is _ u.entry c u.found (
                  goes_attempt _ as_is _ tt c (fail_if_passes _ (not_of u.exists)) (
                    goes_attempt _ as_is _ u.service c u.given_service (
                      goes_attempt _ as_is _ u.plan c u.given_plan (
                        goes_lookup _ _ _ u.service c u.same_service (
                          goes_lookup _ _ _ u.plan c u.same_plan (
                            goes_attempt _ as_is _ tt c
                              (fail_if_passes _ (not_of (eq_refl u.service)))
                              (goes_attempt _ as_is _ tt c
                                (fail_if_passes _ (not_of (eq_refl u.plan)))
                                (goes_on (λ (x : Entry). respond (response 200 empty_object)) _
                                  u.entry (record c { outside = s' })
                                  (apply_done env json_error (run_deleter env) u.entry u.entry c s'
                                    (run_deleter_lem u.entry c.outside s' result deleted))
                                  refl))))))))))))

    -- A request to unbind that passes the checks, and whose binding is deleted, answers with 200 and
    -- starts no job; the binding is not found again where it was.
    pub delete_service_binding-removes :
        (laws : KeepsSecrets env) (r : Request) (c : Ctx env.State) (s' : env.State) (ro : Bool)
        (u : IsUnbindable env configuration r c.outside)
        → r.instance_id ≢ ""
        → r.binding_id ≢ ""
        → u.entry.secret.name ≡ resource_name Key.service_binding r.binding_id
        → delete env u.entry c.outside ≡ (ok tt, s')
        → (delete_service_binding env configuration r c
            ≡ (next tt, answered (response 200 empty_object) s' c))
          × ((found : Entry) × (new env Key.service_binding u.entry.secret.namespace r.binding_id ro
                  s'
                ≡ ok found)
              × (found.exists ≡ false))
    delete_service_binding-removes laws r c s' ro u named identified same deleted = (
      delete_service_binding-answers r c s' (ok tt) named identified u deleted,
      new-delete env laws Key.service_binding r.binding_id ro u.entry c.outside s' same u.exists
          deleted,
    )

    -- A request to unbind that passes the checks answers with 200 also where the deletion of the
    -- binding fails, as it does where the binding is deleted.
    pub delete_service_binding-unreported :
        (r : Request) (c : Ctx env.State) (s' : env.State) (e : Error)
        (u : IsUnbindable env configuration r c.outside)
        → r.instance_id ≢ ""
        → r.binding_id ≢ ""
        → delete env u.entry c.outside ≡ (err e, s')
        → delete_service_binding env configuration r c
          ≡ (next tt, answered (response 200 empty_object) s' c)
    delete_service_binding-unreported r c s' e u named identified refused =
        delete_service_binding-answers r c s' (err e) named identified u refused
