-- ===== src/Broker/Guards/Poll.antt =====
-- handlePollServiceInstance of pkg/broker/handlers.go: when a poll ends the operation.
use service_broker_k8s.Base.{
  String, Bool, true, false, ◌≡◌, ◌⊎◌, inl, inr, refl, Option, none, some, ◌==◌, not, sym, ap, ◌∙◌,
  if◌then◌else◌,
}
use mathlib.Core.Path.{subst}
use service_broker_k8s.Errors.{Error, Result, ok, err, panic, fail_if}
use service_broker_k8s.Env.{Env}
use service_broker_k8s.Registry.{Entry, new, get_string}
use service_broker_k8s.Registry.Key
use service_broker_k8s.Http.{Request, Response, json_error}
use service_broker_k8s.Broker.{mayget_single_parameter, get_single_parameter}
use service_broker_k8s.Broker.Auth.{ServerConfiguration}
use service_broker_k8s.Broker.Instance.{poll_service_instance, report}
use service_broker_k8s.Broker.Handler.{Handler, Ctx, follow, done, reply, attempt}
use service_broker_k8s.Broker.Steps.{namespace_of_instance, or_empty}
use service_broker_k8s.Broker.Handler.Rules.{Untouched}
use service_broker_k8s.Broker.Guards.{eq_of_passed, try, try_same}

-- A value that stands for what a key holds: the key's text, or the empty text where it has none.
abbrev pub Stands : Result (Option String) → String → Type 0
Stands (ok none) value = value ≡ ""
Stands (ok (some s)) value = value ≡ s
Stands _ value = ⊥

module _ (env : Env) {B : Type 0} (P : Type 0) (k : String → Handler env.State B) where
  -- The rule for a key that the handler goes on without.
  or_empty_rule :
      (c : Ctx env.State) (r : Result (Option String)) (e : Error)
      → ((value : String) (c' : Ctx env.State) → Stands r value → Untouched c' (k value c').1 ⊎ P)
      → Untouched c (follow k (follow (or_empty env e) (attempt r c))).1 ⊎ P
  or_empty_rule c (ok none) e h = h "" _ refl
  or_empty_rule c (ok (some value)) e h = h value c refl
  or_empty_rule c (err e') e h = inl (refl, refl)
  or_empty_rule c panic e h = inl (refl, refl)

module _ {S B : Type 0} (P : Type 0) (k : Unit {0} → Handler S B) (c : Ctx S) where
  exists_rule :
      (b : Bool) (r : Response)
      → (b ≡ true → Untouched c (k tt c).1 ⊎ P)
      → Untouched c (follow k ((if b then done else reply r) c)).1 ⊎ P
  exists_rule true r h = h refl
  exists_rule false r h = inl (refl, refl)

module _ (env : Env) (configuration : ServerConfiguration) where
  -- What must hold of a poll before it ends an operation.
  pub record IsEnding (r : Request) (s : env.State) : Type 0 where
    pub entry : Entry
    pub operation_id : String
    pub status : String
    pub found :
        new env Key.service_instance
          (namespace_of_instance env configuration r s)
          r.instance_id
          false
          s
        ≡ ok entry
    pub exists : entry.exists ≡ true
    pub given : get_single_parameter r "operation" ≡ ok operation_id
    pub same : Stands (get_string Key.operation_id entry) operation_id
    pub ended : get_string Key.operation_status entry ≡ ok (some status)

  report_rule :
      (P : Type 0) (c : Ctx env.State) (entry : Entry) (status : Option String)
      → ((text : String) → status ≡ some text → P)
      → Untouched c (report env configuration entry status c).1 ⊎ P
  report_rule P c entry none h = inl (refl, refl)
  report_rule P c entry (some text) h = inr (h text refl)

  -- A poll changes nothing outside the broker and starts no job unless the instance exists, its entry
  -- has a status, and the query's operation is the ID that is recorded, or the empty text where no
  -- ID is.
  pub poll_service_instance-guards :
      (r : Request) (c : Ctx env.State)
      → Untouched c (poll_service_instance env configuration r c).1 ⊎ IsEnding r c.outside
  unfolding poll_service_instance
  poll_service_instance-guards r c =
      let P = IsEnding r c.outside in
      let ns = namespace_of_instance env configuration r c.outside in
      try P _ c json_error (fail_if (r.instance_id == "") _) λ u1 named.
        try P _ c json_error (new env Key.service_instance ns r.instance_id false c.outside)
          λ entry found. exists_rule P _ c entry.exists _ λ there.
            try P _ c json_error (mayget_single_parameter r "service_id") λ service_id e1.
              try P _ c json_error (mayget_single_parameter r "plan_id") λ plan_id e2.
                try P _ c json_error (get_single_parameter r "operation") λ operation_id given.
                  or_empty_rule env P _ c (get_string Key.service_id entry) _ λ service c1 h1.
                    or_empty_rule env P _ c1 (get_string Key.plan_id entry) _ λ plan c2 h2.
                      or_empty_rule env P _ c2 (get_string Key.operation_id entry) _ λ id c3 stands.
                        try_same P _ c3 service_id service _ (
                          try_same P _ c3 plan_id plan _ (
                            try P _ c3 json_error (fail_if (not (operation_id == id)) _) λ u3 same.
                              try P _ c3 json_error (get_string Key.operation_status entry)
                                λ status read. report_rule P c3 entry status λ text ends. (record {
                                  entry = entry;
                                  operation_id = operation_id;
                                  status = text;
                                  found = found;
                                  exists = there;
                                  given = given;
                                  same =
                                      subst (Stands (get_string Key.operation_id entry))
                                        (sym (eq_of_passed operation_id id _ same)) stands;
                                  ended = read ∙ ap ok ends;
                                })))
