-- ===== src/Config/Validation/Laws.antt =====
-- What `validate` accepts, as a predicate, and what the lookups of a validated configuration give.
use service_broker_k8s.Base.{
  String, ◌≡◌, ◌↔◌, refl, true, false, Option, none, some, List, [], ◌∷◌, arith, ◌==◌, inl, inr,
  All, Bool-cases, Option-cases, is_some,
}
use mathlib.Core.Path.{subst}
use service_broker_k8s.Errors.{Result, ok, >>-eq-ok}
use service_broker_k8s.Config.{
  ServicePlan, ServiceOffering, ConfigurationTemplate, TemplateList, ConfigurationBinding,
  ServiceBrokerConfig, find_service, find_plan, find_binding, find_template,
  get_service_and_plan_names, get_template_bindings,
}
use service_broker_k8s.Config.Validation.{
  for_each, is_bindable, validate_plan, validate_template, does_nothing, if_given, validate_binding,
  validate_use, validate_templates, validate,
}

-- The plan has a binding, which configures service bindings exactly when the plan can be bound to.
abbrev pub IsBound : List ConfigurationBinding → ServiceOffering → ServicePlan → Type 0
IsBound bindings service plan =
    (b : ConfigurationBinding) × (find_binding service.name plan.name bindings ≡ some b)
    × (is_bindable service plan ≡ is_some b.service_binding)

abbrev pub IsDefined : List ConfigurationTemplate → String → Type 0
IsDefined templates name = is_some (find_template name templates) ≡ true

-- The list does something, and each template that it names is defined.
abbrev pub IsUseful : List ConfigurationTemplate → TemplateList → Type 0
IsUseful templates l = (does_nothing l ≡ false) × All (IsDefined templates) l.templates

abbrev pub IfGiven : (TemplateList → Type 0) → Option TemplateList → Type 0
IfGiven P none = Unit
IfGiven P (some l) = P l

abbrev pub Passes : ServiceBrokerConfig → Type 0
Passes config =
    All (λ service. All (IsBound config.bindings service) service.plans) config.catalog
    × All
        (λ b.
          IsUseful config.templates b.service_instance
          × IfGiven (IsUseful config.templates) b.service_binding)
        config.bindings

module _ {ℓ κ} {A : Type ℓ} (P : A → Type κ) (f : A → Result (Unit {0})) where
  for_each_sound : ((x : A) → f x ≡ ok tt → P x) → (xs : List A) → for_each f xs ≡ ok tt → All P xs
  for_each_sound sound [] h = tt
  for_each_sound sound (x ∷ xs) h =
      let (here, later) = >>-eq-ok (f x) (for_each f xs) h in
      (sound x here, for_each_sound sound xs later)

  for_each_complete :
      ((x : A) → P x → f x ≡ ok tt) → (xs : List A) → All P xs → for_each f xs ≡ ok tt
  for_each_complete complete [] h = refl
  for_each_complete complete (x ∷ xs) (p, h) = rw (complete x p) (for_each_complete complete xs h)

plan_sound :
    (bindings : List ConfigurationBinding) (service : ServiceOffering) (plan : ServicePlan)
    → validate_plan bindings service plan ≡ ok tt
    → IsBound bindings service plan
unfolding validate_plan
plan_sound bindings service plan h =
    elim (Option-cases (find_binding service.name plan.name bindings)) [
      | inl missing ↦ absurd (ground arith)
      | inr (b, found) ↦ (b, found, ground arith)
    ]

plan_complete :
    (bindings : List ConfigurationBinding) (service : ServiceOffering) (plan : ServicePlan)
    → IsBound bindings service plan
    → validate_plan bindings service plan ≡ ok tt
unfolding validate_plan
plan_complete bindings service plan (b, found, same) = ground arith

template_sound :
    (templates : List ConfigurationTemplate) (binding kind name : String)
    → validate_template templates binding kind name ≡ ok tt
    → IsDefined templates name
unfolding validate_template
template_sound templates binding kind name h = ground arith

template_complete :
    (templates : List ConfigurationTemplate) (binding kind name : String)
    → IsDefined templates name
    → validate_template templates binding kind name ≡ ok tt
unfolding validate_template
template_complete templates binding kind name h = ground arith

module _ (templates : List ConfigurationTemplate) (binding kind kind' : String) where
  list_sound :
      (l : TemplateList)
      → validate_use binding kind l ≡ ok tt
      → validate_templates templates binding kind' l ≡ ok tt
      → IsUseful templates l
  unfolding validate_use validate_templates
  list_sound l does defined = (
    ground arith,
    for_each_sound (IsDefined templates) (validate_template templates binding kind')
        (template_sound templates binding kind') l.templates defined,
  )

  list_complete :
      (l : TemplateList)
      → IsUseful templates l
      → (validate_use binding kind l ≡ ok tt)
        × (validate_templates templates binding kind' l ≡ ok tt)
  unfolding validate_use validate_templates
  list_complete l (does, defined) = (
    rw does,
    for_each_complete (IsDefined templates) (validate_template templates binding kind')
        (template_complete templates binding kind') l.templates defined,
  )

  given_sound :
      (o : Option TemplateList)
      → if_given o (validate_use binding kind) ≡ ok tt
      → if_given o (validate_templates templates binding kind') ≡ ok tt
      → IfGiven (IsUseful templates) o
  given_sound none does defined = tt
  given_sound (some l) does defined = list_sound l does defined

  given_complete :
      (o : Option TemplateList)
      → IfGiven (IsUseful templates) o
      → (if_given o (validate_use binding kind) ≡ ok tt)
        × (if_given o (validate_templates templates binding kind') ≡ ok tt)
  given_complete none h = (refl, refl)
  given_complete (some l) h = list_complete l h

abbrev IsSound : List ConfigurationTemplate → ConfigurationBinding → Type 0
IsSound templates b =
    IsUseful templates b.service_instance × IfGiven (IsUseful templates) b.service_binding

validate_binding-IsSound :
    (templates : List ConfigurationTemplate) (b : ConfigurationBinding)
    → validate_binding templates b ≡ ok tt
    → IsSound templates b
unfolding validate_binding
validate_binding-IsSound templates b h =
    let (does, rest) = >>-eq-ok _ _ h in
    let (binding_does, rest') = >>-eq-ok _ _ rest in
    let (defined, binding_defined) = >>-eq-ok _ _ rest' in
    (
      list_sound templates b.name "instances" "instance" b.service_instance does defined,
      given_sound templates b.name "bindings" "binding" b.service_binding binding_does
          binding_defined,
    )

binding_complete :
    (templates : List ConfigurationTemplate) (b : ConfigurationBinding)
    → IsSound templates b
    → validate_binding templates b ≡ ok tt
unfolding validate_binding
binding_complete templates b (instance_use, binding_use) =
    let (does, defined) =
      list_complete templates b.name "instances" "instance" b.service_instance instance_use in
    let (binding_does, binding_defined) =
      given_complete templates b.name "bindings" "binding" b.service_binding binding_use in
    rw (does, binding_does, defined, binding_defined)

-- The predicate on the lookups of the configuration that `validate` decides.
pub validate-Passes : (config : ServiceBrokerConfig) → (validate config ≡ ok tt) ↔ Passes config
unfolding validate
validate-Passes config = (
  λ h.
      let (services, bindings) = >>-eq-ok _ _ h in
      (
        for_each_sound (λ service. All (IsBound config.bindings service) service.plans)
            (λ service. for_each (validate_plan config.bindings service) service.plans)
            (λ service.
              for_each_sound (IsBound config.bindings service)
                (validate_plan config.bindings service) (plan_sound config.bindings service)
                service.plans)
            config.catalog services,
        for_each_sound _ _ (validate_binding-IsSound config.templates) config.bindings bindings,
      ),
  λ (services, bindings).
      rw
        (for_each_complete (λ service. All (IsBound config.bindings service) service.plans)
          (λ service. for_each (validate_plan config.bindings service) service.plans)
          (λ service.
            for_each_complete (IsBound config.bindings service)
              (validate_plan config.bindings service) (plan_complete config.bindings service)
              service.plans)
          config.catalog services)
        (for_each_complete _ _ (binding_complete config.templates) config.bindings bindings),
)

find_service-All :
    (P : ServiceOffering → Type 0) (id : String) (services : List ServiceOffering)
    (service : ServiceOffering)
    → All P services
    → find_service id services ≡ some service
    → P service
unfolding find_service
find_service-All P id [] service h e = cc
find_service-All P id (x ∷ xs) service (here, later) e = elim (Bool-cases (x.id == id)) [
  | inl same ↦ let found : x ≡ service = ground arith in subst P found here
  | inr other_id ↦ find_service-All P id xs service later (ground arith)
]

find_plan-All :
    (P : ServicePlan → Type 0) (id : String) (plans : List ServicePlan) (plan : ServicePlan)
    → All P plans
    → find_plan id plans ≡ some plan
    → P plan
unfolding find_plan
find_plan-All P id [] plan h e = cc
find_plan-All P id (x ∷ xs) plan (here, later) e = elim (Bool-cases (x.id == id)) [
  | inl same ↦ let found : x ≡ plan = ground arith in subst P found here
  | inr other_id ↦ find_plan-All P id xs plan later (ground arith)
]

-- In a validated configuration every service and plan that the catalog lists has template bindings,
-- and these configure service bindings exactly when the plan can be bound to.
pub get_template_bindings_of_IsValid :
    (config : ServiceBrokerConfig) (service_id plan_id : String) (service : ServiceOffering)
    (plan : ServicePlan)
    → validate config ≡ ok tt
    → find_service service_id config.catalog ≡ some service
    → find_plan plan_id service.plans ≡ some plan
    → (b : ConfigurationBinding) × (get_template_bindings config service_id plan_id ≡ ok b)
      × (is_bindable service plan ≡ is_some b.service_binding)
unfolding get_template_bindings get_service_and_plan_names
get_template_bindings_of_IsValid config service_id plan_id service plan valid hs hp =
    let plans =
      find_service-All _ service_id config.catalog service ((validate-Passes config).0 valid).0
        hs in
    let (b, found, same) = find_plan-All _ plan_id service.plans plan plans hp in
    (b, rw (hs, hp, found), same)
