-- ===== src/Provisioner/Creator.antt =====
-- pkg/provisioners/create.go and delete.go: a creation as steps with checks between them.
pub mod Completes
use service_broker_k8s.Base.{
  String, Bool, Option, none, some, List, [], ◌∷◌, if◌then◌else◌, or_default,
}
use service_broker_k8s.Errors.{Result, ok, err, panic, other}
use service_broker_k8s.Exec.{Exec, lift, pure, raise, ◌>>=◌, ◌>>◌}
use service_broker_k8s.Json.{Json, Bytes}
use service_broker_k8s.Env.{
  Env, Mapping, Answer, answer, not_found, already_exists, failed, to_result,
}
use service_broker_k8s.Config.{ServiceBrokerConfig, ReadinessCheck, ConfigurationTemplate}
use service_broker_k8s.Registry.{Entry, get_owner_reference, delete}
use service_broker_k8s.Operation.{complete, Session}
use service_broker_k8s.Provisioner.{ResourceType, namespace_or_default}
use service_broker_k8s.Provisioner.Object.{owned_object, with_owner}
use service_broker_k8s.Provisioner.Readiness.{barrier}

-- `createStep`
pub record CreateStep : Type 0 where
  pub name : String
  pub templates : List ConfigurationTemplate
  pub readiness_checks : List ReadinessCheck

-- `Creator`
pub record Creator : Type 0 where
  pub resource_type : ResourceType
  pub steps : List CreateStep

-- `NewCreator`
abbrev pub new_creator : ResourceType → Creator
new_creator t = record { resource_type = t; steps = [] }

-- A loop whose body may return an error.
abbrev pub each : {S A : Type 0} → (A → Exec S (Unit {0})) → List A → Exec S (Unit {0})
each f [] = pure tt
each f (x ∷ xs) = f x >> each f xs

-- `_, err = …`
abbrev pub dropped : {A : Type 0} → Answer A → Result (Unit {0})
dropped (answer _) = ok tt
dropped not_found = err (other "not found")
dropped already_exists = err (other "already exists")
dropped (failed reason) = err (other reason)

module _ (env : Env) where
  open env use {
    State, object_name, object_namespace, object_mapping, get_object, create_object, update_object,
  }

  abbrev pub scope : Mapping → String → Option String
  scope mapping namespace = if mapping.is_root then none else some namespace

  abbrev create : Mapping → String → Json → Exec State (Answer Json)
  create mapping namespace object s =
      let (a, s') = create_object mapping.resource (scope mapping namespace) object s in (ok a, s')

  abbrev update : Mapping → String → Json → Exec State (Unit {0})
  update mapping namespace object s =
      let (a, s') = update_object mapping.resource (scope mapping namespace) object s in
      (dropped a, s')

  -- The singleton that exists gets the entry as one more owner. It is read in a namespace also
  -- where its scope is the cluster.
  unfoldable pub share_singleton : Mapping → String → Json → Entry → Exec State (Unit {0})
  unfolding with_owner get_owner_reference
  share_singleton mapping namespace object entry = do
    existing ←
        (λ s. (to_result (get_object mapping.resource (some namespace) (object_name object) s), s))
    shared ← lift (with_owner env existing (get_owner_reference entry))
    update mapping namespace shared

  abbrev after_create : Bool → Exec State (Unit {0}) → Answer Json → Exec State (Unit {0})
  after_create singleton share (answer _) = pure tt
  after_create singleton share not_found = raise (other "not found")
  after_create singleton share already_exists =
      if singleton then share else raise (other "already exists")
  after_create singleton share (failed reason) = raise (other reason)

  abbrev create_from : Bool → Option Bytes → Entry → Exec State (Unit {0})
  create_from singleton none entry = pure tt
  create_from singleton (some raw) entry = do
    object ← lift (owned_object env raw entry)
    mapping ← lift (object_mapping object)
    namespace ← lift (namespace_or_default (object_namespace object) entry)
    created ← create mapping namespace object
    after_create singleton (share_singleton mapping namespace object entry) created

  -- `createResource`; a template that has no object is passed over.
  unfoldable pub create_resource : ConfigurationTemplate → Entry → Exec State (Unit {0})
  unfolding owned_object share_singleton namespace_or_default
  create_resource template entry =
      create_from template.singleton (or_default template.template none) entry

  -- The rest of `Run`; that the completion fails is only logged.
  abbrev pub complete_with : Result (Unit {0}) × State → Entry → Result (Unit {0}) × Session env
  complete_with (ok _, s) entry = (ok tt, (complete env none (entry, s)).1)
  complete_with (err e, s) entry = (ok tt, (complete env (some e) (entry, s)).1)
  complete_with (panic, s) entry = (panic, (entry, s))

  module _ (config : ServiceBrokerConfig) where
    abbrev run_step : Entry → CreateStep → Exec State (Unit {0})
    run_step entry step = do
      each (λ template. create_resource template entry) step.templates
      each (λ check. barrier env config entry check) step.readiness_checks

    -- `run`
    unfoldable pub run : Creator → Entry → Exec State (Unit {0})
    unfolding create_resource barrier
    run p entry = each (run_step entry) p.steps

    -- `Run`, on the entry and the state outside.
    unfoldable pub run_creator : Creator → Exec (Session env) (Unit {0})
    unfolding run complete
    run_creator p (entry, s) = complete_with (run p entry s) entry

  -- `Run` of the deleter; that the deletion fails is only logged.
  unfoldable pub run_deleter : Exec (Session env) (Unit {0})
  unfolding delete
  run_deleter (entry, s) = let (_, s') = delete env entry s in (ok tt, (entry, s'))
