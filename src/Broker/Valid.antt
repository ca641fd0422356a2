-- ===== src/Broker/Valid.antt =====
-- pkg/broker/util.go under a valid configuration: the checks of a request and what they promise to
-- the provisioners.
use service_broker_k8s.Base.{
  String, true, ◌≡◌, ◌⊎◌, ◌↔◌, inl, inr, refl, Option-cases, some, arith, eq_iff,
}
use service_broker_k8s.Errors.{ok, >>=-eq-ok}
use service_broker_k8s.Config.{
  ServiceBrokerConfig, ServiceOffering, ServicePlan, TemplateList, find_service, find_plan,
}
use service_broker_k8s.Config.Validation.{validate, is_bindable}
use service_broker_k8s.Config.Validation.Laws.{get_template_bindings_of_IsValid}
use service_broker_k8s.Provisioner.{instance_resource, binding_resource, get_template_binding}
use service_broker_k8s.Broker.{
  validate_service_plan, get_service_plan, get_service_offering, verify_bindable, plan_updatable,
}

get_service_plan_ok :
    (config : ServiceBrokerConfig) (service_id plan_id : String) (plan : ServicePlan)
    → get_service_plan config service_id plan_id ≡ ok plan
    → (service : ServiceOffering) × (find_service service_id config.catalog ≡ some service)
      × (find_plan plan_id service.plans ≡ some plan)
unfolding get_service_plan get_service_offering
get_service_plan_ok config service_id plan_id plan h =
    elim (Option-cases (find_service service_id config.catalog)) [
      | inl nil ↦ absurd (ground (arith, nil))
      | inr (service, found) ↦ elim (Option-cases (find_plan plan_id service.plans)) [
        | inl nil ↦ absurd (ground (arith, found, nil))
        | inr (p, there) ↦ (service, found, ground (arith, found, there))
      ]
    ]

offering_of :
    (config : ServiceBrokerConfig) (service_id : String) (service : ServiceOffering)
    → find_service service_id config.catalog ≡ some service
    → get_service_offering config service_id ≡ ok service
unfolding get_service_offering
offering_of config service_id service found = ground (arith, found)

-- Under a valid configuration a service and a plan that pass the broker's check have templates for
-- instances, and they have templates for service bindings exactly if they also pass the check that
-- the plan can be bound to.
pub verify_bindable_iff :
    (config : ServiceBrokerConfig) (service_id plan_id : String)
    → validate config ≡ ok tt
    → validate_service_plan config service_id plan_id ≡ ok tt
    → ((l : TemplateList) × (get_template_binding config instance_resource service_id plan_id
          ≡ ok l))
      × ((verify_bindable config service_id plan_id ≡ ok tt) ↔ (
          (l : TemplateList) × (get_template_binding config binding_resource service_id plan_id
            ≡ ok l)))
unfolding validate_service_plan verify_bindable get_template_binding is_bindable
verify_bindable_iff config service_id plan_id valid offered =
    let (plan, has, _) =
      >>=-eq-ok (get_service_plan config service_id plan_id) (λ p. ok tt) tt offered in
    let (service, found, there) = get_service_plan_ok config service_id plan_id plan has in
    let (b, bound, same) =
      get_template_bindings_of_IsValid config service_id plan_id service plan valid found there in
    let is_offered : get_service_offering config service_id ≡ ok service =
      offering_of config service_id service found in
    (
      (b.service_instance, rw bound refl),
      elim (Option-cases b.service_binding) [
        | inl nil ↦ (
          λ h. absurd (ground (arith, is_offered, has, same, nil, h)),
          λ (l, h). absurd (ground (arith, bound, nil, h)),
        )
        | inr (l, held) ↦ (
          λ h. (l, ground (arith, bound, held)),
          λ h. ground (arith, is_offered, has, same, held),
        )
      ],
    )

-- A plan may be changed exactly if the service is offered and either allows it or keeps its plan.
pub plan_updatable_iff :
    (config : ServiceBrokerConfig) (service_id plan_id new_plan_id : String)
    → (plan_updatable config service_id plan_id new_plan_id ≡ ok tt) ↔ (
        (service : ServiceOffering) × (find_service service_id config.catalog ≡ some service)
        × ((service.plan_updatable ≡ true) ⊎ (plan_id ≡ new_plan_id)))
unfolding plan_updatable get_service_offering
plan_updatable_iff config service_id plan_id new_plan_id =
    elim (Option-cases (find_service service_id config.catalog)) [
      | inl nil ↦ (
        λ h. absurd (ground (arith, nil)),
        λ (service, found, _). absurd (ground (arith, nil, found)),
      )
      | inr (service, found) ↦ (
        λ h. (service, found, ground (arith, found, h, eq_iff plan_id new_plan_id)),
        λ (service', found', may). ground (arith, found, found', may, eq_iff plan_id new_plan_id),
      )
    ]
