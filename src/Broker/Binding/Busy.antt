-- ===== src/Broker/Binding/Busy.antt =====
-- handleCreateServiceBinding of pkg/broker/handlers.go: a binding of an instance on which an
-- operation is in progress.
use service_broker_k8s.Base.{
  String, Bool, true, ◌≡◌, inl, inr, refl, sym, ne_of_test, some, ap, ◌∙◌, arith, Option-cases,
}
use service_broker_k8s.Base.Dict.{or_else}
use service_broker_k8s.Errors.{ok}
use service_broker_k8s.Json.{unmarshal_string}
use service_broker_k8s.Env.{Env}
use service_broker_k8s.Config.{ServiceBrokerConfig}
use service_broker_k8s.Http.{Request, CreateServiceBindingRequest, json_error}
use service_broker_k8s.Registry.{Entry, get_string, get, find, decoded, commit, new, resource_name}
use service_broker_k8s.Registry.Key
use service_broker_k8s.Registry.Persistence.{KeepsSecrets, find-commit, new-commit}
use service_broker_k8s.Operation.{provision, commit_entry, operation_exists}
use service_broker_k8s.Operation.Phases.{start_refused}
use service_broker_k8s.Provisioner.{binding_resource}
use service_broker_k8s.Provisioner.Creator.{Creator, new_creator}
use service_broker_k8s.Provisioner.Prepare.{prepare_creator}
use service_broker_k8s.Provisioner.Prepare.Protects.{prepare_creator-find}
use service_broker_k8s.Broker.Record.{binding_record}
use service_broker_k8s.Broker.Record.Laws.{binding_record-find}
use service_broker_k8s.Broker.Binding.{new_binding}
use service_broker_k8s.Broker.Handler.{Ctx, returned, answered}
use service_broker_k8s.Broker.Steps.Laws.{apply_done, goes_on, goes_attempt}

get_string_of_same :
    (k : String) (e e' : Entry) → find k e' ≡ find k e → get_string k e' ≡ get_string k e
unfolding get_string get
get_string_of_same k e e' same = ap (decoded unmarshal_string) same

-- A key that an entry has goes before that of another.
get_string_of_or_else :
    (k v : String) (o e e' : Entry)
    → find k e' ≡ or_else (find k o) (find k e)
    → get_string k o ≡ ok (some v)
    → get_string k e' ≡ ok (some v)
unfolding get_string get
get_string_of_or_else k v o e e' taken held = elim (Option-cases (find k o)) [
  | inl none_there ↦ absurd (ground (arith, none_there))
  | inr (b, there) ↦ ap (decoded unmarshal_string) (rw there at taken ∙ sym there) ∙ held
]

module _ (env : Env) (config : ServiceBrokerConfig) (r : Request)
    (request : CreateServiceBindingRequest) (instance_entry entry : Entry) where
  -- A request to bind an instance whose entry records an operation, and whose binding can be
  -- recorded and prepared, is answered with the error that the operation exists, since the new entry
  -- inherits the operation; the entry stays in the registry with the operation of the instance.
  pub new_binding-busy :
      (laws : KeepsSecrets env) (op : String) (recorded committed prepared : Entry)
      (creator : Creator) (c : Ctx env.State) (s1 : env.State) (ro : Bool)
      → get_string Key.operation instance_entry ≡ ok (some op)
      → binding_record env r.binding_id request.context request.parameters instance_entry entry
        ≡ ok recorded
      → recorded.secret.name ≡ resource_name Key.service_binding r.binding_id
      → commit env recorded c.outside ≡ (ok tt, committed, s1)
      → prepare_creator env config (new_creator binding_resource) committed ≡ ok (prepared, creator)
      → (new_binding env config r request instance_entry entry c
          ≡ (returned, answered (json_error (operation_exists op)) s1 c))
        × ((found : Entry) × (new env Key.service_binding recorded.secret.namespace r.binding_id ro
                s1
              ≡ ok found)
            × (found.exists ≡ true)
            × (get_string Key.operation found ≡ ok (some op)))
  unfolding new_binding
  new_binding-busy laws op recorded committed prepared creator c s1 ro busy records named commits
        prepares =
      let d = record c { outside = s1 } in
      let inherited =
        get_string_of_or_else Key.operation op instance_entry entry recorded
          (binding_record-find env r.binding_id request.context request.parameters instance_entry
            entry recorded records Key.operation (ne_of_test refl) (ne_of_test refl)
            (ne_of_test refl))
          busy in
      let still =
        get_string_of_same Key.operation committed prepared (
          prepare_creator-find env config Key.operation (inl (inr (inr (inl refl))))
            (new_creator binding_resource) creator committed prepared prepares)
        ∙ get_string_of_same Key.operation recorded committed
            (find-commit env laws Key.operation recorded committed c.outside s1 commits)
        ∙ inherited in
      let (found, there, exists, _, same) =
        new-commit env laws Key.service_binding r.binding_id ro recorded committed c.outside s1
          named commits in
      (
        goes_attempt _ json_error _ recorded c records (
            goes_on _ _ committed d
              (apply_done env json_error (commit_entry env) recorded committed c s1
                (rw commits refl))
              (goes_attempt _ json_error _ (prepared, creator) d prepares
                (rw (start_refused env provision op prepared s1 still) refl))),
        (
          found,
          there,
          exists,
          get_string_of_same Key.operation recorded found (same Key.operation) ∙ inherited,
        ),
      )
