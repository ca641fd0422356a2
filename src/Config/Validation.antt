-- ===== src/Config/Validation.antt =====
-- pkg/config/validation.go: the checks that a configuration passes before it is served.
pub mod Laws
pub mod Accepts
use service_broker_k8s.Base.{
  String, Bool, Option, none, some, List, [], ◌∷◌, ◌&&◌, not, sprintf, is_empty, is_some,
  or_default,
}
use service_broker_k8s.Errors.{Error, Result, ok, other, ◌>>=◌, ◌>>◌, fail_if, or_fail}
use service_broker_k8s.Config.{
  ServicePlan, ServiceOffering, ConfigurationTemplate, TemplateList, ConfigurationBinding,
  ServiceBrokerConfig, find_binding, find_template,
}

abbrev pub invalid : List String → Error
invalid texts = other (sprintf ("configuration is invalid: " ∷ texts))

-- `for _, x := range xs { if err := f(x); err != nil { return err } }`
abbrev pub for_each {ℓ} : {A : Type ℓ} → (A → Result (Unit {0})) → List A → Result (Unit {0})
for_each f [] = ok tt
for_each f (x ∷ xs) = f x >> for_each f xs

-- Whether a plan can be bound to: its own setting, or that of its service.
unfoldable pub is_bindable : ServiceOffering → ServicePlan → Bool
is_bindable service plan = or_default plan.bindable service.bindable

-- The checks on one plan of one service.
unfoldable pub validate_plan :
    List ConfigurationBinding → ServiceOffering → ServicePlan → Result (Unit {0})
validate_plan bindings service plan = do
  binding ← or_fail (find_binding service.name plan.name bindings) (
      invalid (
        "service plan '" ∷ plan.name ∷ "' for offering '" ∷ service.name
        ∷ "' does not have a binding" ∷ []))
  fail_if (not (is_bindable service plan) && is_some binding.service_binding) (
      invalid (
        "service plan '" ∷ plan.name ∷ "' for offering '" ∷ service.name
        ∷ "' not bindable, but binding '" ∷ binding.name ∷ "' defines service binding configuarion"
        ∷ []))
  fail_if (is_bindable service plan && not (is_some binding.service_binding)) (
      invalid (
        "service plan '" ∷ plan.name ∷ "' for offering '" ∷ service.name
        ∷ "' bindable, but binding '" ∷ binding.name
        ∷ "' does not define service binding configuarion" ∷ []))

unfoldable pub validate_template :
    List ConfigurationTemplate → (binding kind name : String) → Result (Unit {0})
validate_template templates binding kind name =
    fail_if (not (is_some (find_template name templates))) (
      invalid (
        "template '" ∷ name ∷ "', referenced by binding '" ∷ binding ∷ "' service " ∷ kind
        ∷ ", must exist" ∷ []))

abbrev pub does_nothing : TemplateList → Bool
does_nothing l = is_empty l.registry && is_empty l.templates

-- A check on the service binding configuration, where there is one.
abbrev pub if_given : Option TemplateList → (TemplateList → Result (Unit {0})) → Result (Unit {0})
if_given none f = ok tt
if_given (some l) f = f l

-- Bindings cannot do nothing.
unfoldable pub validate_use : (binding kind : String) → TemplateList → Result (Unit {0})
validate_use binding kind l =
    fail_if (does_nothing l)
      (invalid ("binding '" ∷ binding ∷ "' does nothing for service " ∷ kind ∷ []))

-- Binding templates must exist.
unfoldable pub validate_templates :
    List ConfigurationTemplate → (binding kind : String) → TemplateList → Result (Unit {0})
unfolding validate_template
validate_templates templates binding kind l =
    for_each (validate_template templates binding kind) l.templates

-- The checks on one configuration binding.
unfoldable pub validate_binding :
    List ConfigurationTemplate → ConfigurationBinding → Result (Unit {0})
validate_binding templates b = do
  validate_use b.name "instances" b.service_instance
  if_given b.service_binding (validate_use b.name "bindings")
  validate_templates templates b.name "instance" b.service_instance
  if_given b.service_binding (validate_templates templates b.name "binding")

-- `validate`
unfoldable pub validate : ServiceBrokerConfig → Result (Unit {0})
validate config = do
  for_each (λ service. for_each (validate_plan config.bindings service) service.plans)
      config.catalog
  for_each (validate_binding config.templates) config.bindings
