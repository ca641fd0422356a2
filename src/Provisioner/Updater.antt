-- ===== src/Provisioner/Updater.antt =====
-- pkg/provisioners/update.go: the resources of a service instance are rendered again, and those
-- that differ from what was asked for before are patched.
pub mod Changes
use service_broker_k8s.Base.{
  String, Option, none, some, List, [], ◌∷◌, ◌++◌, if◌then◌else◌, or_default,
}
use service_broker_k8s.Errors.{Result, ok, err, panic, other, or_fail, ◌>>=◌}
use service_broker_k8s.Json.{Json, null, Bytes, json_equal}
use service_broker_k8s.Env.{Env, Mapping, to_result}
use service_broker_k8s.Exec.{Exec}
use service_broker_k8s.Config.{ServiceBrokerConfig, ConfigurationTemplate}
use service_broker_k8s.Registry.{Entry, get_string}
use service_broker_k8s.Registry.Key
use service_broker_k8s.Operation.{Session, complete}
use service_broker_k8s.Provisioner.{
  ResourceType, get_template_binding, get_template, namespace_or_default,
}
use service_broker_k8s.Provisioner.Template.{render_template}
use service_broker_k8s.Provisioner.Object.{resource_annotation, unmarshal_object, marshal_object}
use service_broker_k8s.Provisioner.Creator.{each, dropped, scope, complete_with}
use service_broker_k8s.Provisioner.Prepare.{required_string}

-- `Updater`, less the request, which it does not read.
pub record Updater : Type 0 where
  pub resource_type : ResourceType
  pub resources : List Json

-- `NewUpdater`
abbrev pub new_updater : ResourceType → Updater
new_updater t = record { resource_type = t; resources = [] }

abbrev pub changed : Result Json → Result (Option Json)
changed r = do object ← r; ok (some object)

abbrev pub with_resource : Option Json → List Json → List Json
with_resource none rest = rest
with_resource (some resource) rest = resource ∷ rest

module _ (env : Env) where
  open env use {
    State, stack_depth, object_name, object_namespace, object_mapping, nested_string,
    set_nested_string, get_object, update_object, create_merge_patch, merge_patch, string_of_bytes,
    bytes_of_string,
  }

  abbrev pub annotation_path : List String
  annotation_path = "metadata" ∷ "annotations" ∷ resource_annotation ∷ []

  -- The annotation, where its lookup fails for any reason.
  abbrev pub original_text : Result (Option String) → Result String
  original_text (ok (some s)) = ok s
  original_text panic = panic
  original_text _ = err (other "resource attibute missing: failed to lookup original resource")

  -- The current object with the difference between the original and the new one.
  abbrev pub merged : (current : Json) (original new : Bytes) → Result Json
  merged current original new = do
    patch ← create_merge_patch original new
    current_json ← marshal_object env current
    merged_json ← merge_patch current_json patch
    object ← unmarshal_object env merged_json
    set_nested_string object (string_of_bytes new) annotation_path

  -- The bytes of a rendered template. `t.Template.Raw` is set by the rendering.
  abbrev pub rendered_bytes : ConfigurationTemplate → Result Bytes
  rendered_bytes t = or_fail (or_default t.template none) (other "unexpected end of JSON input")

  -- The update of one rendered template: none where the resource is as it was asked for.
  unfoldable pub update_of : Bytes → Entry → State → Result (Option Json)
  unfolding unmarshal_object marshal_object namespace_or_default json_equal
  update_of new_json entry s = do
    new_object ← unmarshal_object env new_json
    mapping ← object_mapping new_object
    namespace ← namespace_or_default (object_namespace new_object) entry
    current ←
        to_result
          (get_object mapping.resource (scope env mapping namespace) (object_name new_object) s)
    original ← original_text (nested_string current annotation_path)
    original_object ← unmarshal_object env (bytes_of_string original)
    if json_equal original_object new_object
        then ok none
        else changed (merged current (bytes_of_string original) new_json)

  -- The template of one name; singletons are passed over.
  abbrev pub update_one :
      ServiceBrokerConfig → Entry → State → ConfigurationTemplate → Result (Option Json)
  update_one config entry s template = if template.singleton then ok none else do
    rendered ← render_template env config stack_depth entry template null
    new_json ← rendered_bytes rendered
    update_of new_json entry s

  -- The loop of `Prepare` over the templates of the binding.
  unfoldable pub prepare_resources :
      ServiceBrokerConfig → Entry → State → List String → Result (List Json)
  unfolding get_template render_template update_of
  prepare_resources config entry s [] = ok []
  prepare_resources config entry s (name ∷ more) = do
    template ← get_template config name
    resource ← update_one config entry s template
    rest ← prepare_resources config entry s more
    ok (with_resource resource rest)

  -- `Prepare`
  unfoldable pub prepare_updater : ServiceBrokerConfig → Updater → Entry → State → Result Updater
  unfolding get_string get_template_binding prepare_resources
  prepare_updater config u entry s = do
    service_id ←
        required_string Key.service_id
          "resource reference missing: unable to lookup service instance service ID" entry
    plan_id ←
        required_string Key.plan_id
          "resource reference missing: unable to lookup service instance plan ID" entry
    templates ← get_template_binding config u.resource_type service_id plan_id
    resources ← prepare_resources config entry s templates.templates
    ok (record u { resources = u.resources ++ resources })

  abbrev update_resource : Mapping → Json → Exec State (Unit {0})
  update_resource mapping resource s =
      let (a, s') =
        update_object mapping.resource (scope env mapping (object_namespace resource)) resource s in
      (dropped a, s')

  abbrev update_mapped : Result Mapping → Json → Exec State (Unit {0})
  update_mapped (ok mapping) resource s = update_resource mapping resource s
  update_mapped (err e) resource s = (err e, s)
  update_mapped panic resource s = (panic, s)

  -- `run`
  unfoldable pub run_updates : Updater → Exec State (Unit {0})
  run_updates u = each (λ resource. update_mapped (object_mapping resource) resource) u.resources

  -- `Run`
  unfoldable pub run_updater : Updater → Exec (Session env) (Unit {0})
  unfolding run_updates complete
  run_updater u (entry, s) = complete_with env (run_updates u s) entry
