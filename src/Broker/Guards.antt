-- ===== src/Broker/Guards.antt =====
-- When the handlers of pkg/broker/handlers.go and ServeHTTP change the state outside the process or
-- start a job.
pub mod Bind
pub mod Delete
pub mod Forgets
pub mod Poll
pub mod Update
use service_broker_k8s.Base.{
  String, Bool, true, false, ◌≡◌, ◌≢◌, ◌⊎◌, inl, inr, refl, Option, none, some, ◌==◌, arith,
  Bool-cases, not, ne_of_test, eq_of_test, is_some, if◌then◌else◌,
}
use service_broker_k8s.Errors.{Error, Result, ok, err, panic, fail_if}
use service_broker_k8s.Env.{Env}
use service_broker_k8s.Config.{ServiceBrokerConfig}
use service_broker_k8s.Registry.{Entry, new, get_string, get_raw}
use service_broker_k8s.Registry.Key
use service_broker_k8s.Http.{
  Request, Response, Body, json_request, json_error, CreateServiceInstanceRequest, no_content,
}
use service_broker_k8s.Broker.{
  async_required, validate_service_plan, validate_parameters, instance_schema, create_schema,
  mayget_single_parameter, get_single_parameter,
}
use service_broker_k8s.Broker.Auth.{
  ServerConfiguration, authorize, Check, passed, refused, crashed, check_request_headers,
}
use service_broker_k8s.Broker.Auth.Laws.{authorize_unset}
use service_broker_k8s.Broker.Create.{create_service_instance}
use service_broker_k8s.Broker.Instance.{
  read_service_instance, delete_service_instance, not_in_progress,
}
use service_broker_k8s.Broker.Directory.{delete_directory_instance, get_directory_instance}
use service_broker_k8s.Broker.Handler.{
  Handler, Ctx, Flow, next, returned, panicked, follow, attempt, attempt_with, required,
}
use service_broker_k8s.Broker.Steps.{same_if_given, response, namespace_of_instance}
use service_broker_k8s.Broker.Handler.Rules.{
  Untouched, Untouched-IsKept, SameJobs, SameJobs-IsKept, SameOutside, SameOutside-IsKept, IsKept,
  after_step, after_attempt, after_lookup,
}
use service_broker_k8s.Broker.Server.{serve_http, after_check, is_open_path, Route}

-- A test that fails with an error unless two texts are the same.
pub eq_of_passed : (s t : String) (e : Error) → fail_if (not (s == t)) e ≡ ok tt → s ≡ t
eq_of_passed s t e h = elim (Bool-cases (s == t)) [
  | inl same ↦ eq_of_test same
  | inr differ ↦ absurd (ground (arith, differ))
]

pub true_of_passed : (b : Bool) (e : Error) → fail_if (not b) e ≡ ok tt → b ≡ true
true_of_passed true e h = refl
true_of_passed false e h = absurd (ground arith)

-- The rules for steps that change nothing.
module _ {S A B : Type 0} (P : Type 0) (k : A → Handler S B) (c : Ctx S) where
  pub try :
      (f : Error → Response) (r : Result A)
      → ((a : A) → r ≡ ok a → Untouched c (k a c).1 ⊎ P)
      → Untouched c (follow k (attempt_with f r c)).1 ⊎ P
  try = after_attempt Untouched Untouched-IsKept P k c

  pub try_lookup :
      (r : Result (Option A)) (e : Error)
      → ((a : A) → r ≡ ok (some a) → Untouched c (k a c).1 ⊎ P)
      → Untouched c (follow k (follow (λ o. required o e) (attempt r c))).1 ⊎ P
  try_lookup = after_lookup Untouched Untouched-IsKept P k c

module _ {S B : Type 0} (P : Type 0) (k : Unit {0} → Handler S B) (c : Ctx S) where
  pub try_same :
      (value : Option String) (wanted : String) (e : String → Error)
      → Untouched c (k tt c).1 ⊎ P
      → Untouched c (follow k (same_if_given value wanted e c)).1 ⊎ P
  try_same none wanted e h = h
  try_same (some value) wanted e h =
      try P k c json_error (fail_if (not (value == wanted)) (e value)) λ u same. h

-- What a request to create an instance must satisfy before anything happens.
pub record IsAdmitted (env : Env) (configuration : ServerConfiguration)
    (config : ServiceBrokerConfig) (r : Request) (body : Body CreateServiceInstanceRequest)
    (s : env.State) : Type 0 where
  pub request : CreateServiceInstanceRequest
  pub accepts_incomplete : async_required r ≡ ok tt
  pub readable : json_request body ≡ ok request
  pub authorized : authorize env configuration r request.service_id request.plan_id s ≡ ok tt
  pub offered : validate_service_plan config request.service_id request.plan_id ≡ ok tt
  pub conforming :
      validate_parameters env config request.service_id request.plan_id instance_schema
        create_schema request.parameters
      ≡ ok tt

module _ (env : Env) (configuration : ServerConfiguration) (config : ServiceBrokerConfig) where
  -- A request to create an instance changes nothing outside the broker and starts no job unless the
  -- client accepts an asynchronous answer, its body can be read, its user is authorised for the
  -- service and plan, the configuration offers these, and the parameters conform to the schema.
  pub create_service_instance-guards :
      (r : Request) (body : Body CreateServiceInstanceRequest) (c : Ctx env.State)
      → Untouched c (create_service_instance env configuration config r body c).1
        ⊎ IsAdmitted env configuration config r body c.outside
  unfolding create_service_instance
  create_service_instance-guards r body c =
      let P = IsAdmitted env configuration config r body c.outside in
      try P _ c json_error (async_required r) λ u1 accepts.
        try P _ c json_error (json_request body) λ request readable.
          try P _ c json_error
            (authorize env configuration r request.service_id request.plan_id c.outside)
            λ u2 authorized. try P _ c json_error (fail_if (r.instance_id == "") _) λ u3 named.
              try P _ c json_error (validate_service_plan config request.service_id request.plan_id)
                λ u4 offered.
                  try P _ c json_error
                    (validate_parameters env config request.service_id request.plan_id
                      instance_schema create_schema request.parameters)
                    λ u5 conforming. inr (record {
                      request = request;
                      accepts_incomplete = accepts;
                      readable = readable;
                      authorized = authorized;
                      offered = offered;
                      conforming = conforming;
                    })

  -- Where the settings of the advanced token are missing, no request creates an instance, not even
  -- one that has passed another method of authentication.
  pub create_service_instance-needs_settings :
      (r : Request) (body : Body CreateServiceInstanceRequest) (c : Ctx env.State)
      → configuration.advanced_token ≡ none
      → Untouched c (create_service_instance env configuration config r body c).1
  create_service_instance-needs_settings r body c unset =
      elim (create_service_instance-guards r body c) [
        | inl kept ↦ kept
        | inr admitted ↦
            absurd (authorize_unset env configuration r _ _ c.outside unset admitted.authorized)
      ]

pub always : {P : Type 0} → P ⊎ ⊥ → P
always (inl p) = p
always (inr never) = absurd never

module _ (env : Env) (configuration : ServerConfiguration) where
  refusal_keeps :
      (op : Option String) (k : Unit {0} → Handler env.State (Unit {0})) (c : Ctx env.State)
      → Untouched c (k tt c).1
      → Untouched c (follow k (not_in_progress env configuration op c)).1 ⊎ ⊥
  refusal_keeps none k c h = inl h
  refusal_keeps (some op) k c h = inl (refl, refl)

  read_keeps :
      (r : Request) (c : Ctx env.State)
      → Untouched c (read_service_instance env configuration r c).1 ⊎ ⊥
  unfolding read_service_instance
  read_keeps r c =
      let ns = namespace_of_instance env configuration r c.outside in
      try ⊥ _ c json_error (fail_if (r.instance_id == "") _) λ u1 named.
        try ⊥ _ c json_error (new env Key.service_instance ns r.instance_id true c.outside)
          λ entry found. try ⊥ _ c json_error (fail_if (not entry.exists) _) λ u2 exists.
            try ⊥ _ c json_error (mayget_single_parameter r "service_id") λ service_id e1.
              try ⊥ _ c json_error (mayget_single_parameter r "plan_id") λ plan_id e2.
                try_lookup ⊥ _ c (get_string Key.service_id entry) _ λ service e3.
                  try_lookup ⊥ _ c (get_string Key.plan_id entry) _ λ plan e4.
                    try_same ⊥ _ c service_id service _ (
                      try_same ⊥ _ c plan_id plan _ (
                        try_lookup ⊥ _ c (get_raw env Key.parameters entry) _ λ parameters e5.
                          try ⊥ _ c json_error (get_string Key.operation entry)
                            λ op e6. refusal_keeps op _ c (refl, refl)))

  -- Reading an instance changes nothing outside the broker and starts no job, whatever the request
  -- is and however it is answered.
  pub read_service_instance-Untouched :
      (r : Request) (c : Ctx env.State)
      → Untouched c (read_service_instance env configuration r c).1
  read_service_instance-Untouched r c = always (read_keeps r c)

module _ (env : Env) (configuration : ServerConfiguration) where
  check_rule :
      (P : Type 0) (check : Check) (h : Handler env.State (Unit {0})) (c : Ctx env.State)
      → (check ≡ passed → P)
      → Untouched c (after_check env check h c).1 ⊎ P
  check_rule P passed h c k = inr (k refl)
  check_rule P (refused status) h c k = inl (refl, refl)
  check_rule P crashed h c k = inl (refl, refl)

  -- What must hold of a request before its handler runs.
  abbrev pub IsServed : Option ServiceBrokerConfig → Request → Type 0
  IsServed config r =
      (is_some config ≡ true)
      × ((is_open_path r.path ≡ true) ⊎ (check_request_headers env configuration r ≡ passed))

  -- No request changes anything outside the broker or starts a job before there is a valid
  -- configuration, nor afterwards unless its path is open to all or its headers pass every check.
  pub serve_http-guards :
      (config : Option ServiceBrokerConfig) (r : Request) (route : Route) (c : Ctx env.State)
      → Untouched c (serve_http env configuration config r route c).1 ⊎ IsServed config r
  unfolding serve_http
  serve_http-guards none r route c = inl (refl, refl)
  serve_http-guards (some config) r route c =
      check_rule (IsServed (some config) r)
        (if is_open_path r.path then passed else check_request_headers env configuration r) _ c
        λ check. elim (Bool-cases (is_open_path r.path)) [
          | inl opened ↦ (refl, inl opened)
          | inr closed ↦ (refl, inr (rw closed at check))
        ]
