-- ===== src/Broker/Create/Starts.antt =====
-- handleCreateServiceInstance of pkg/broker/handlers.go: the job that a new instance starts.
use service_broker_k8s.Base.{String, ◌≡◌, ◌⊎◌, inl, inr, refl, some, ◌++◌, ◌∷◌, [], ap, ◌∙◌, sym}
use service_broker_k8s.Errors.{ok}
use service_broker_k8s.Env.{Env, answer}
use service_broker_k8s.Config.{ServiceBrokerConfig}
use service_broker_k8s.Http.{Request, CreateServiceInstanceRequest, json_error}
use service_broker_k8s.Registry.{Entry, get_string, clone}
use service_broker_k8s.Registry.Key
use service_broker_k8s.Registry.Persistence.{KeepsSecrets}
use service_broker_k8s.Operation.{provision, start, commit_entry, type_text}
use service_broker_k8s.Operation.Phases.{start-get_string, start-stored}
use service_broker_k8s.Provisioner.{instance_resource}
use service_broker_k8s.Provisioner.Creator.{Creator, new_creator}
use service_broker_k8s.Provisioner.Prepare.{prepare_creator}
use service_broker_k8s.Broker.{get_namespace}
use service_broker_k8s.Broker.Auth.{ServerConfiguration}
use service_broker_k8s.Broker.Create.{new_instance}
use service_broker_k8s.Broker.Record.{instance_record}
use service_broker_k8s.Broker.Handler.{Ctx, next, create_job}
use service_broker_k8s.Broker.Steps.{apply_with}
use service_broker_k8s.Broker.Handler.Rules.{
  SameJobs, Untouched, Untouched-IsKept, after_attempt, after_lookup, ends_step, ends_attempt,
}
use service_broker_k8s.Broker.Guards.{always}
use service_broker_k8s.Broker.Guards.Delete.{start_idle_only}
use service_broker_k8s.Broker.Steps.Laws.{apply_ok, apply_ran, apply-SameJobs}

module _ (env : Env) where
  -- One creation has been started, on an entry that records it as the operation in progress, and
  -- that the cluster holds.
  pub record IsStarted (c c' : Ctx env.State) : Type 0 where
    pub creator : Creator
    pub started : Entry
    pub id : String
    pub one_job : c'.jobs ≡ c.jobs ++ create_job creator started ∷ []
    pub operation : get_string Key.operation started ≡ ok (some "provision")
    pub stored :
        env.get_secret started.secret.namespace started.secret.name c'.outside
        ≡ answer started.secret
    pub operation_id : get_string Key.operation_id started ≡ ok (some id)

  apply-IsStarted :
      (laws : KeepsSecrets env) (c c1 c2 : Ctx env.State) (prepared : Entry) (creator : Creator)
      (started : Entry)
      → apply_with env json_error (start env provision) prepared c1 ≡ (next started, c2)
      → c2.jobs ≡ c.jobs
      → (c' : Ctx env.State)
      → Untouched (record c2 { jobs = c2.jobs ++ create_job creator started ∷ [] }) c'
      → IsStarted c c'
  unfolding type_text
  apply-IsStarted laws c c1 c2 prepared creator started h same c' (outside, one) =
      let idle =
        start_idle_only env provision prepared c1.outside
          (apply_ok env json_error (start env provision) prepared started c1 c2 h) in
      let ran = apply_ran env json_error (start env provision) prepared started c1 c2 h in
      let (op, id, _) =
        start-get_string env laws provision prepared started c1.outside c2.outside ran idle in
      let stored =
        start-stored env laws provision prepared started c1.outside c2.outside ran idle in
      record {
        creator = creator;
        started = started;
        id = (env.new_uuid c1.outside).0;
        one_job = one ∙ ap (λ jobs. jobs ++ create_job creator started ∷ []) same;
        operation = op;
        stored = ap (env.get_secret started.secret.namespace started.secret.name) outside ∙ stored;
        operation_id = id;
      }

module _ (env : Env) (configuration : ServerConfiguration) (config : ServiceBrokerConfig)
    (r : Request) (request : CreateServiceInstanceRequest) (entry : Entry) where
  -- For a new instance a creation is started at most once, and only on an entry that names it as
  -- the operation in progress, under an ID, and that the cluster holds as it is; otherwise no job is
  -- started.
  pub new_instance-starts :
      (laws : KeepsSecrets env) (c : Ctx env.State)
      → SameJobs c (new_instance env configuration config r request entry c).1
        ⊎ IsStarted env c (new_instance env configuration config r request entry c).1
  unfolding new_instance
  new_instance-starts laws c =
      let Q = λ (d : Ctx env.State). SameJobs c d ⊎ IsStarted env c d in
      ends_attempt Q _ c json_error (get_namespace env request.context configuration.namespace)
        (inl refl) (λ x. inl refl)
        λ namespace resolved.
          ends_attempt Q _ c json_error
            (instance_record env namespace r.instance_id request.service_id request.plan_id
              request.context request.parameters entry)
            (inl refl) (λ x. inl refl)
            λ recorded written.
              let kept1 = apply-SameJobs env json_error (commit_entry env) recorded c in
              ends_step Q _ (apply_with env json_error (commit_entry env) recorded c) (inl kept1)
                λ committed c1 h1.
                  let same1 = ap (λ o. o.1.jobs) (sym h1) ∙ kept1 in
                  ends_attempt Q _ c1 json_error
                    (prepare_creator env config (new_creator instance_resource) committed)
                    (inl same1) (λ x. inl same1)
                    λ prepared h2.
                      let kept2 =
                        apply-SameJobs env json_error (start env provision) prepared.0 c1 in
                      ends_step Q _ (apply_with env json_error (start env provision) prepared.0 c1)
                        (inl (kept2 ∙ same1))
                        λ started c2 h3.
                          let same2 = ap (λ o. o.1.jobs) (sym h3) ∙ kept2 ∙ same1 in
                          inr (
                            apply-IsStarted env laws c c1 c2 prepared.0 prepared.1 started h3 same2
                              _
                              (always (
                                after_lookup Untouched Untouched-IsKept ⊥ _
                                  (record c2 {
                                    jobs = c2.jobs ++ create_job prepared.1 started ∷ [];
                                  })
                                  (get_string Key.operation_id (clone started)) _
                                  λ id h4.
                                    after_attempt Untouched Untouched-IsKept ⊥ _ _ json_error
                                      (get_string Key.dashboard_url (clone started))
                                      λ url h5. inl (refl, refl))))
