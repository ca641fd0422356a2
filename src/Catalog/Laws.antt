-- ===== src/Catalog/Laws.antt =====
-- The catalog that a client reads, and the broker's check of the service and the plan of a request
-- (pkg/broker/util.go).
use service_broker_k8s.Base.{
  ◌≡◌, ◌≢◌, ◌⊎◌, ◌↔◌, inl, inr, refl, String, some, List, [], ◌∷◌, ◌==◌, Bool-cases, Option-cases,
  eq_of_test, ne_of_test, arith,
}
use mathlib.Core.Path.{subst}
use service_broker_k8s.Errors.{ok}
use service_broker_k8s.Config
use service_broker_k8s.Config.{ServiceBrokerConfig, find_service, find_plan}
use service_broker_k8s.Broker.{validate_service_plan, get_service_plan, get_service_offering}
use service_broker_k8s.Catalog.{ServicePlan, ServiceCatalog, convert_plan, convert_catalog, each_of}

-- The catalog lists a plan of an ID, and a service of an ID with such a plan.
abbrev ListsPlan : String → List ServicePlan → Type 0
ListsPlan id [] = ⊥
ListsPlan id (p ∷ more) = (p.id ≡ id) ⊎ ListsPlan id more

abbrev pub Lists : (service_id plan_id : String) → ServiceCatalog → Type 0
Lists s p [] = ⊥
Lists s p (o ∷ more) = ((o.id ≡ s) × ListsPlan p o.plans) ⊎ Lists s p more

-- No two services of the configuration have the same ID.
abbrev HasNoService : String → Config.ServiceCatalog → Type 0
HasNoService id [] = Unit
HasNoService id (o ∷ more) = (o.id ≢ id) × HasNoService id more

abbrev pub AreDistinct : Config.ServiceCatalog → Type 0
AreDistinct [] = Unit
AreDistinct (o ∷ more) = HasNoService o.id more × AreDistinct more

some_eq : {A : Type 0} {a b : A} → some a ≡ some b → a ≡ b
some_eq h = cc

-- The check, as a look into the catalog of the configuration.
Finds : (s p : String) → Config.ServiceCatalog → Type 0
Finds s p catalog =
    (o : Config.ServiceOffering) × (find_service s catalog ≡ some o)
    × ((x : Config.ServicePlan) × (find_plan p o.plans ≡ some x))

find_plan_iff :
    (id : String) (plans : List Config.ServicePlan)
    → ((x : Config.ServicePlan) × (find_plan id plans ≡ some x))
      ↔ ListsPlan id (each_of convert_plan plans)
unfolding find_plan convert_plan
find_plan_iff id [] = (λ (x, h). cc, λ h. absurd h)
find_plan_iff id (p ∷ more) = elim (Bool-cases (p.id == id)) [
  | inl same ↦ (λ h. inl (eq_of_test same), λ h. (p, rw same refl))
  | inr other ↦ (
    λ (x, h). inr ((find_plan_iff id more).0 (x, ground (arith, other, h))),
    λ h. elim h [
      | inl same ↦ absurd (ne_of_test other same)
      | inr later ↦ let (x, found) = (find_plan_iff id more).1 later in (x, rw other found)
    ],
  )
]

not_listed :
    (s p : String) (catalog : Config.ServiceCatalog)
    → HasNoService s catalog
    → Lists s p (convert_catalog catalog)
    → ⊥
unfolding convert_catalog
not_listed s p [] none_of h = h
not_listed s p (o ∷ more) (differs, none_of) (inl (same, _)) = differs same
not_listed s p (o ∷ more) (differs, none_of) (inr later) = not_listed s p more none_of later

Finds-iff :
    (s p : String) (catalog : Config.ServiceCatalog)
    → AreDistinct catalog
    → Finds s p catalog ↔ Lists s p (convert_catalog catalog)
unfolding Finds find_service convert_catalog
Finds-iff s p [] distinct = (λ (o, h, _). cc, λ h. absurd h)
Finds-iff s p (o ∷ more) (alone, distinct) = elim (Bool-cases (o.id == s)) [
  | inl same ↦ (
    λ (o', found, plan).
        inl (eq_of_test same, (find_plan_iff p o.plans).0 (rw (some_eq (rw same at found)) plan)),
    λ h. elim h [
      | inl (_, listed) ↦ (o, rw same refl, (find_plan_iff p o.plans).1 listed)
      | inr later ↦ absurd (
          not_listed s p more
            (subst (λ (id : String). HasNoService id more) (eq_of_test same) alone) later)
    ],
  )
  | inr other ↦ (
    λ (o', found, plan).
        inr ((Finds-iff s p more distinct).0 (o', ground (arith, other, found), plan)),
    λ h. elim h [
      | inl (same, _) ↦ absurd (ne_of_test other same)
      | inr later ↦
          let (o', found, plan) = (Finds-iff s p more distinct).1 later in
          (o', rw other found, plan)
    ],
  )
]

check-Finds :
    (config : ServiceBrokerConfig) (s p : String)
    → (validate_service_plan config s p ≡ ok tt) ↔ Finds s p config.catalog
unfolding validate_service_plan get_service_plan get_service_offering Finds
check-Finds config s p = elim (Option-cases (find_service s config.catalog)) [
  | inl nil ↦
      (λ h. absurd (ground (arith, nil, h)), λ (o, found, _). absurd (ground (arith, nil, found)))
  | inr (o, found) ↦ elim (Option-cases (find_plan p o.plans)) [
    | inl nil ↦ (
      λ h. absurd (ground (arith, found, nil, h)),
      λ (o', found', (x, plan)). absurd (ground (arith, found, found', nil, plan)),
    )
    | inr (x, plan) ↦ (λ h. (o, found, (x, plan)), λ h. ground (arith, found, plan))
  ]
]

-- Where no two services of the configuration have the same ID, a service and a plan pass the broker's
-- check exactly if the catalog that clients read lists the plan under the service.
pub validate_service_plan_iff :
    (config : ServiceBrokerConfig) (s p : String)
    → AreDistinct config.catalog
    → (validate_service_plan config s p ≡ ok tt) ↔ Lists s p (convert_catalog config.catalog)
validate_service_plan_iff config s p distinct =
    let (to, from) = check-Finds config s p in
    let (to', from') = Finds-iff s p config.catalog distinct in
    (λ h. to' (to h), λ h. from (from' h))
