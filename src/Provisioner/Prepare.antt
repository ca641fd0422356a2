-- ===== src/Provisioner/Prepare.antt =====
-- `Prepare` of pkg/provisioners/create.go: the synchronous part of a creation.
pub mod Protects
use service_broker_k8s.Base.{String, List, [], ◌∷◌, ◌++◌, if◌then◌else◌, or_default}
use service_broker_k8s.Errors.{Result, ok, other, or_fail, ◌>>=◌}
use service_broker_k8s.Json.{Json, null}
use service_broker_k8s.Env.{Env}
use service_broker_k8s.Config.{
  ServiceBrokerConfig, RegistryValue, TemplateList, TemplateListStep, ConfigurationTemplate,
}
use service_broker_k8s.Registry.{Entry, get_string, set_user}
use service_broker_k8s.Registry.Key
use service_broker_k8s.Provisioner.{get_template_binding, get_template}
use service_broker_k8s.Provisioner.Template.{is_null, render_string, render_template}
use service_broker_k8s.Provisioner.Creator.{Creator, CreateStep}

-- A key of the entry that must be there.
abbrev pub required_string : String → String → Entry → Result String
required_string key missing entry = do value ← get_string key entry; or_fail value (other missing)

-- The steps that are given, or the one step of the lists.
abbrev pub steps_of : TemplateList → List TemplateListStep
steps_of l = or_default l.steps (
    record { name = "default"; templates = l.templates; readiness_checks = l.readiness_checks }
    ∷ [])

module _ (env : Env) (config : ServiceBrokerConfig) where
  open env use {stack_depth}

  -- A value that renders to nil is not set.
  abbrev set_rendered : String → Json → Entry → Result Entry
  set_rendered name value entry = if is_null value then ok entry else set_user name value entry

  -- The loop over the registry values of a binding.
  unfoldable pub set_registry_values : List RegistryValue → Entry → Result Entry
  unfolding render_string set_user
  set_registry_values [] entry = ok entry
  set_registry_values (r ∷ more) entry = do
    value ← render_string env config stack_depth entry r.value null
    entry' ← set_rendered r.name value entry
    set_registry_values more entry'

  -- The loop over the templates of a step.
  unfoldable pub render_templates : Entry → List String → Result (List ConfigurationTemplate)
  unfolding get_template render_template
  render_templates entry [] = ok []
  render_templates entry (name ∷ more) = do
    template ← get_template config name
    rendered ← render_template env config stack_depth entry template null
    rest ← render_templates entry more
    ok (rendered ∷ rest)

  -- The loop over the steps.
  unfoldable pub prepare_steps : Entry → List TemplateListStep → Result (List CreateStep)
  unfolding render_templates
  prepare_steps entry [] = ok []
  prepare_steps entry (step ∷ more) = do
    templates ← render_templates entry step.templates
    rest ← prepare_steps entry more
    ok (
        record { name = step.name; templates = templates; readiness_checks = step.readiness_checks }
        ∷ rest)

  -- `Prepare`, which writes to the entry in memory.
  unfoldable pub prepare_creator : Creator → Entry → Result (Entry × Creator)
  unfolding get_string get_template_binding set_registry_values prepare_steps
  prepare_creator p entry = do
    service_id ←
        required_string Key.service_id "resource reference missing: unable to lookup service ID"
          entry
    plan_id ←
        required_string Key.plan_id "resource reference missing: unable to lookup plan ID" entry
    templates ← get_template_binding config p.resource_type service_id plan_id
    entry' ← set_registry_values templates.registry entry
    steps ← prepare_steps entry' (steps_of templates)
    ok (entry', record p { steps = p.steps ++ steps })
