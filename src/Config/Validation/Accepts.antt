-- ===== src/Config/Validation/Accepts.antt =====
-- Which configurations `validate` of pkg/config/validation.go accepts, as a predicate on the
-- configuration that uses none of its tests and lookups.
use service_broker_k8s.Base.{
  String, Bool, true, false, ◌≡◌, ◌≢◌, ◌⊎◌, ◌↔◌, inl, inr, refl, Option, none, some, List, [], ◌∷◌,
  arith, ◌==◌, ◌&&◌, Bool-cases, Option-cases, eq_iff, All, is_some, is_empty,
}
use service_broker_k8s.Errors.{ok}
use service_broker_k8s.Config.{
  ServicePlan, ServiceOffering, ConfigurationTemplate, TemplateList, ConfigurationBinding,
  ServiceBrokerConfig, find_binding, find_template,
}
use service_broker_k8s.Config.Validation.{is_bindable, does_nothing, validate}
use service_broker_k8s.Config.Validation.Laws.{
  IsBound, IsDefined, IsUseful, IfGiven, validate-Passes,
}

-- The first binding of the list that names the service and the plan.
abbrev pub IsBindingOf :
    (service plan : String) → List ConfigurationBinding → ConfigurationBinding → Type 0
IsBindingOf service plan [] b = ⊥
IsBindingOf service plan (x ∷ more) b =
    ((x.service ≡ service) × (x.plan ≡ plan) × (x ≡ b))
    ⊎ (((x.service ≢ service) ⊎ (x.plan ≢ plan)) × IsBindingOf service plan more b)

-- The plan says that it can be bound to, or it says nothing and its service does.
abbrev pub CanBind : ServiceOffering → ServicePlan → Type 0
CanBind service plan =
    (plan.bindable ≡ some true) ⊎ ((plan.bindable ≡ none) × (service.bindable ≡ true))

-- The plan has a binding, which configures service bindings just if the plan can be bound to.
abbrev pub HasBinding : List ConfigurationBinding → ServiceOffering → ServicePlan → Type 0
HasBinding bindings service plan =
    (b : ConfigurationBinding) × IsBindingOf service.name plan.name bindings b
    × (CanBind service plan ↔ ((l : TemplateList) × (b.service_binding ≡ some l)))

-- A template of the list has the name.
abbrev pub IsNamed : List ConfigurationTemplate → String → Type 0
IsNamed [] name = ⊥
IsNamed (t ∷ more) name = (t.name ≡ name) ⊎ IsNamed more name

-- There are registry values or templates, and each template has a definition.
abbrev pub IsUsed : List ConfigurationTemplate → TemplateList → Type 0
IsUsed templates l = ((l.registry ≢ []) ⊎ (l.templates ≢ [])) × All (IsNamed templates) l.templates

abbrev pub IsValid : ServiceBrokerConfig → Type 0
IsValid config =
    All (λ service. All (HasBinding config.bindings service) service.plans) config.catalog
    × All
        (λ b.
          IsUsed config.templates b.service_instance
          × IfGiven (IsUsed config.templates) b.service_binding)
        config.bindings

All-iff :
    {A : Type 0} (P Q : A → Type 0) → ((x : A) → P x ↔ Q x) → (xs : List A) → All P xs ↔ All Q xs
All-iff P Q same [] = (λ h. tt, λ h. tt)
All-iff P Q same (x ∷ xs) =
    let (forth, back) = All-iff P Q same xs in
    (λ (p, h). ((same x).0 p, forth h), λ (q, h). ((same x).1 q, back h))

find_binding_iff :
    (service plan : String) (bindings : List ConfigurationBinding) (b : ConfigurationBinding)
    → (find_binding service plan bindings ≡ some b) ↔ IsBindingOf service plan bindings b
unfolding find_binding
find_binding_iff service plan [] b = (λ h. absurd (ground arith), λ h. absurd h)
find_binding_iff service plan (x ∷ more) b =
    let (forth, back) = find_binding_iff service plan more b in
    let same_service = eq_iff x.service service in
    let same_plan = eq_iff x.plan plan in
    elim (Bool-cases (x.service == service)) [
      | inl s ↦ elim (Bool-cases (x.plan == plan)) [
        | inl p ↦ (
          λ h. inl (same_service.0 s, same_plan.0 p, ground (arith, s, p, h)),
          λ h. elim h [
            | inl (_, _, same) ↦ ground (arith, s, p, same)
            | inr (inl apart, _) ↦ absurd (apart (same_service.0 s))
            | inr (inr apart, _) ↦ absurd (apart (same_plan.0 p))
          ],
        )
        | inr np ↦ (
          λ h. inr (inr (λ e. ground (arith, np, same_plan.1 e)), forth (ground (arith, s, np, h))),
          λ h. elim h [
            | inl (_, e, _) ↦ absurd (ground (arith, np, same_plan.1 e))
            | inr (_, there) ↦ ground (arith, s, np, back there)
          ],
        )
      ]
      | inr ns ↦ (
        λ h. inr (inl (λ e. ground (arith, ns, same_service.1 e)), forth (ground (arith, ns, h))),
        λ h. elim h [
          | inl (e, _, _) ↦ absurd (ground (arith, ns, same_service.1 e))
          | inr (_, there) ↦ ground (arith, ns, back there)
        ],
      )
    ]

IsNamed-iff :
    (templates : List ConfigurationTemplate) (name : String)
    → IsDefined templates name ↔ IsNamed templates name
unfolding find_template
IsNamed-iff [] name = (λ h. absurd (ground arith), λ h. absurd h)
IsNamed-iff (t ∷ more) name =
    let (forth, back) = IsNamed-iff more name in
    elim (Bool-cases (t.name == name)) [
      | inl same ↦ (λ h. inl ((eq_iff t.name name).0 same), λ h. ground (arith, same))
      | inr apart ↦ (
        λ h. inr (forth (rw apart at h)),
        λ h. elim h [
          | inl e ↦ absurd (ground (arith, apart, (eq_iff t.name name).1 e))
          | inr there ↦ rw apart (back there)
        ],
      )
    ]

CanBind-iff :
    (service : ServiceOffering) (plan : ServicePlan)
    → (is_bindable service plan ≡ true) ↔ CanBind service plan
unfolding is_bindable
CanBind-iff service plan = elim (Option-cases plan.bindable) [
  | inl none_given ↦ (
    λ h. inr (none_given, ground (arith, none_given, h)),
    λ h. elim h [
      | inl given ↦ absurd (ground (arith, none_given, given))
      | inr (_, own) ↦ ground (arith, none_given, own)
    ],
  )
  | inr (b, given) ↦ (
    λ h. inl (ground (arith, given, h)),
    λ h. elim h [
      | inl bound ↦ ground (arith, bound)
      | inr (none_given, _) ↦ absurd (ground (arith, none_given, given))
    ],
  )
]

-- A test that agrees with whether a value is there.
is_some_iff :
    {A : Type 0} (b : Bool) (o : Option A)
    → (b ≡ is_some o) ↔ ((b ≡ true) ↔ ((a : A) × (o ≡ some a)))
is_some_iff true none = (
  λ h. absurd (ground arith),
  λ (forth, back). let (a, never) = forth refl in absurd (ground (arith, never)),
)
is_some_iff true (some a) = (λ h. (λ e. (a, refl), λ e. refl), λ h. refl)
is_some_iff false none =
    (λ h. (λ e. absurd (ground arith), λ (a, never). absurd (ground (arith, never))), λ h. refl)
is_some_iff false (some a) =
    (λ h. absurd (ground arith), λ (forth, back). absurd (ground (arith, back (a, refl))))

HasBinding-iff :
    (bindings : List ConfigurationBinding) (service : ServiceOffering) (plan : ServicePlan)
    → IsBound bindings service plan ↔ HasBinding bindings service plan
HasBinding-iff bindings service plan =
    let (can, is) = CanBind-iff service plan in
    (
      λ (b, found, same).
          let (forth, back) = (is_some_iff (is_bindable service plan) b.service_binding).0 same in
          (
            b,
            (find_binding_iff service.name plan.name bindings b).0 found,
            (λ h. forth (is h), λ h. can (back h)),
          ),
      λ (b, found, (forth, back)). (
        b,
        (find_binding_iff service.name plan.name bindings b).1 found,
        (is_some_iff (is_bindable service plan) b.service_binding).1
            (λ h. forth (can h), λ h. is (back h)),
      ),
    )

cons_ne : {A : Type 0} (x : A) (xs : List A) → x ∷ xs ≢ []
cons_ne x xs h = ground arith

is_empty_iff :
    {A B : Type 0} (xs : List A) (ys : List B)
    → ((is_empty xs && is_empty ys) ≡ false) ↔ ((xs ≢ []) ⊎ (ys ≢ []))
is_empty_iff [] [] = (
  λ h. absurd (ground arith),
  λ h. elim h [ inl apart ↦ absurd (apart refl) | inr apart ↦ absurd (apart refl) ],
)
is_empty_iff [] (y ∷ ys) = (λ h. inr (cons_ne y ys), λ h. refl)
is_empty_iff (x ∷ xs) ys = (λ h. inl (cons_ne x xs), λ h. refl)

does_nothing_iff :
    (l : TemplateList) → (does_nothing l ≡ false) ↔ ((l.registry ≢ []) ⊎ (l.templates ≢ []))
does_nothing_iff l = is_empty_iff l.registry l.templates

IsUsed-iff :
    (templates : List ConfigurationTemplate) (l : TemplateList)
    → IsUseful templates l ↔ IsUsed templates l
IsUsed-iff templates l =
    let (forth, back) = does_nothing_iff l in
    let (named, defined) =
      All-iff (IsDefined templates) (IsNamed templates) (IsNamed-iff templates) l.templates in
    (λ (does, all). (forth does, named all), λ (does, all). (back does, defined all))

IfGiven-iff :
    (P Q : TemplateList → Type 0)
    → ((l : TemplateList) → P l ↔ Q l)
    → (o : Option TemplateList) → IfGiven P o ↔ IfGiven Q o
IfGiven-iff P Q same none = (λ h. h, λ h. h)
IfGiven-iff P Q same (some l) = same l

-- A configuration is accepted exactly when each plan of each service has a binding, of which the
-- first that names the service and the plan configures service bindings just if the plan can be
-- bound to, by its own word or, where it has none, by that of its service; and each binding has
-- registry values or templates for instances and, where it configures them, for service bindings,
-- and a definition of each of these templates. The templates of steps are not looked at.
pub validate_iff : (config : ServiceBrokerConfig) → (validate config ≡ ok tt) ↔ IsValid config
validate_iff config =
    let (passes, accepts) = validate-Passes config in
    let (bound, bound_back) =
      All-iff _ _
        (λ (service : ServiceOffering).
          All-iff _ _ (HasBinding-iff config.bindings service) service.plans)
        config.catalog in
    let (used, used_back) =
      All-iff _ _
        (λ (b : ConfigurationBinding).
          let (i, i') = IsUsed-iff config.templates b.service_instance in
          let (s, s') = IfGiven-iff _ _ (IsUsed-iff config.templates) b.service_binding in
          (λ (h, k). (i h, s k), λ (h, k). (i' h, s' k)))
        config.bindings in
    (λ h. let (p, q) = passes h in (bound p, used q), λ (p, q). accepts (bound_back p, used_back q))
