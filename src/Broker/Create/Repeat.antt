-- ===== src/Broker/Create/Repeat.antt =====
-- handleCreateServiceInstance of pkg/broker/handlers.go: a request for an instance that exists.
use service_broker_k8s.Base.{
  ◌⊎◌, inl, inr, Bool-cases, eq_of_test, ◌==◌, ℕ, String, ◌≡◌, refl, Option, none, some, or_default,
  eq_refl, ◌≢◌, ◌∷◌, [], sprintf, test_of_ne,
}
use service_broker_k8s.Errors.{resource_conflict_error, ok, message}
use service_broker_k8s.Json.{Bytes, deep_equal, deep_equal_iff}
use service_broker_k8s.Env.{Env}
use service_broker_k8s.Http.{json_error, CreateServiceInstanceRequest, instance_created}
use service_broker_k8s.Registry.{Entry, get_string, get_raw}
use service_broker_k8s.Registry.Key
use service_broker_k8s.Operation.Phases.{Phase, InPhase, idle, running}
use service_broker_k8s.Broker.Create.{existing_instance}
use service_broker_k8s.Broker.Handler.{Ctx, next, reply}
use service_broker_k8s.Broker.Steps.{conflicts, differs, same_request, provisioning_id, response}

module _ (env : Env) where
  -- What `same_request` compares is recorded of a request.
  pub record Records (request : CreateServiceInstanceRequest) (entry : Entry) : Type 0 where
    pub service : get_string Key.service_id entry ≡ ok (some request.service_id)
    pub plan : get_string Key.plan_id entry ≡ ok (some request.plan_id)
    pub context : get_raw env Key.context entry ≡ ok (some (or_default request.context none))
    pub parameters :
        get_raw env Key.parameters entry ≡ ok (some (or_default request.parameters none))

  same_request-Records :
      (request : CreateServiceInstanceRequest) (entry : Entry) (c : Ctx env.State)
      → Records request entry
      → same_request env entry request.service_id request.plan_id request.context request.parameters
          c
        ≡ (next tt, c)
  unfolding same_request
  same_request-Records request entry c held = rw (
    held.service,
    held.plan,
    held.context,
    held.parameters,
    eq_refl request.service_id,
    eq_refl request.plan_id,
    (deep_equal_iff (or_default request.context none) (or_default request.context none)).1 refl,
    (deep_equal_iff (or_default request.parameters none) (or_default request.parameters none)).1
        refl,
  )

  -- The phase of an instance that is being provisioned under an ID, or that has no operation.
  abbrev pub phase_of : Option String → Phase
  phase_of none = idle
  phase_of (some id) = running "provision" id

  abbrev pub status_for : Option String → ℕ
  status_for none = 200
  status_for (some _) = 202

  pub existing_instance-repeated :
      (request : CreateServiceInstanceRequest) (entry : Entry) (c : Ctx env.State)
      (url id : Option String)
      → Records request entry
      → get_string Key.dashboard_url entry ≡ ok url
      → InPhase (phase_of id) entry
      → existing_instance env request entry c
        ≡ reply
            (response (status_for id) (instance_created (or_default url "") (or_default id "")))
            c
  unfolding existing_instance provisioning_id
  existing_instance-repeated request entry c url none held dashboard (op, _, _) =
      rw (same_request-Records request entry c held, op, dashboard)
  existing_instance-repeated request entry c url (some id) held dashboard (op, has_id, _) =
      rw (same_request-Records request entry c held, op, has_id, dashboard)

  -- What an entry holds that a repetition of a request is compared with.
  pub record HasKeys (entry : Entry) : Type 0 where
    pub service : String
    pub plan : String
    pub context : Option Bytes
    pub parameters : Option Bytes
    pub operation : Option String
    pub has_service : get_string Key.service_id entry ≡ ok (some service)
    pub has_plan : get_string Key.plan_id entry ≡ ok (some plan)
    pub has_context : get_raw env Key.context entry ≡ ok (some context)
    pub has_parameters : get_raw env Key.parameters entry ≡ ok (some parameters)
    pub has_operation : get_string Key.operation entry ≡ ok operation

  -- The request asks for another instance than the one that exists, or another operation than its
  -- provisioning is in progress.
  abbrev pub Differs : CreateServiceInstanceRequest → (entry : Entry) → HasKeys entry → Type 0
  Differs request entry keys =
      (keys.service ≢ request.service_id)
      ⊎ (keys.plan ≢ request.plan_id)
      ⊎ (or_default request.context none ≢ keys.context)
      ⊎ (or_default request.parameters none ≢ keys.parameters)
      ⊎ ((op : String) × (keys.operation ≡ some op) × (op ≢ "provision"))

  abbrev IsConflict : CreateServiceInstanceRequest → Entry → Ctx env.State → Type 0
  IsConflict request entry c =
      (text : String) × (existing_instance env request entry c
        ≡ reply (json_error (resource_conflict_error text)) c)

  pub existing_instance-IsConflict :
      (request : CreateServiceInstanceRequest) (entry : Entry) (keys : HasKeys entry)
      (c : Ctx env.State)
      → Differs request entry keys
      → IsConflict request entry c
  unfolding existing_instance provisioning_id same_request message
  existing_instance-IsConflict request entry keys c other =
      let context = or_default request.context none in
      let parameters = or_default request.parameters none in
      elim (Bool-cases (keys.service == request.service_id)) [
        | inr s ↦ (
          message (conflicts "service ID" request.service_id keys.service),
          rw (keys.has_service, s) refl,
        )
        | inl s ↦ elim (Bool-cases (keys.plan == request.plan_id)) [
          | inr p ↦ (
            message (conflicts "plan ID" request.plan_id keys.plan),
            rw (keys.has_service, s, keys.has_plan, p) refl,
          )
          | inl p ↦ elim (Bool-cases (deep_equal context keys.context)) [
            | inr k ↦ (
              message (differs env "request context " " does" context keys.context),
              rw (keys.has_service, s, keys.has_plan, p, keys.has_context, k) refl,
            )
            | inl k ↦ elim (Bool-cases (deep_equal parameters keys.parameters)) [
              | inr m ↦ (
                message (differs env "request parameters " " do" parameters keys.parameters),
                rw
                    (
                      keys.has_service, s, keys.has_plan, p, keys.has_context, k,
                      keys.has_parameters, m,
                    )
                    refl,
              )
              | inl m ↦ elim other [
                | inl apart ↦ absurd (apart (eq_of_test s))
                | inr (inl apart) ↦ absurd (apart (eq_of_test p))
                | inr (inr (inl apart)) ↦ absurd (apart ((deep_equal_iff context keys.context).0 k))
                | inr (inr (inr (inl apart))) ↦
                    absurd (apart ((deep_equal_iff parameters keys.parameters).0 m))
                | inr (inr (inr (inr (op, busy, apart)))) ↦ (
                  sprintf ("existing " ∷ op ∷ " operation in progress" ∷ []),
                  rw
                      (
                        keys.has_service,
                        s,
                        keys.has_plan,
                        p,
                        keys.has_context,
                        k,
                        keys.has_parameters,
                        m,
                        keys.has_operation,
                        busy,
                        test_of_ne apart,
                      )
                      refl,
                )
              ]
            ]
          ]
        ]
      ]
