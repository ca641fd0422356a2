-- ===== src/Provisioner/Prepare/Protects.antt =====
-- What the registry values of the configuration, pkg/provisioners/create.go, leave in an entry.
use service_broker_k8s.Base.{
  String, ◌≡◌, ◌⊎◌, inl, inr, refl, List, [], ◌∷◌, ◌++◌, ◌∙◌, arith, Bool-cases,
}
use service_broker_k8s.Errors.{Result, ok, >>=-eq-ok, ◌>>=◌}
use service_broker_k8s.Json.{Json, null}
use service_broker_k8s.Env.{Env}
use service_broker_k8s.Config.{ServiceBrokerConfig, RegistryValue, TemplateList}
use service_broker_k8s.Registry.{Entry, find}
use service_broker_k8s.Registry.Key
use service_broker_k8s.Registry.Permissions.{IsHidden, IsIdentity, set_user-protects}
use service_broker_k8s.Provisioner.{get_template_binding}
use service_broker_k8s.Provisioner.Template.{is_null, render_string}
use service_broker_k8s.Provisioner.Creator.{Creator}
use service_broker_k8s.Provisioner.Prepare.{
  set_rendered, set_registry_values, prepare_creator, prepare_steps, required_string, steps_of,
}

module _ (env : Env) (config : ServiceBrokerConfig) (j : String)
    (protected : IsHidden j ⊎ IsIdentity j) where
  set_rendered-find :
      (name : String) (value : Json) (e e' : Entry)
      → set_rendered env config name value e ≡ ok e'
      → find j e' ≡ find j e
  set_rendered-find name value e e' h = elim (Bool-cases (is_null value)) [
    | inl nil ↦ let same : e ≡ e' = ground (arith, nil) in rw same refl
    | inr there ↦ (set_user-protects name j value e e' (ground (arith, there)) protected).0
  ]

  set_registry_values-find :
      (values : List RegistryValue) (e e' : Entry)
      → set_registry_values env config values e ≡ ok e'
      → find j e' ≡ find j e
  unfolding set_registry_values
  set_registry_values-find [] e e' h = let same : e ≡ e' = ground (arith) in rw same refl
  set_registry_values-find (r ∷ more) e e' h =
      let (value, rendered, h1) =
        >>=-eq-ok (render_string env config env.stack_depth e r.value null)
          (λ v. set_rendered env config r.name v e >>= set_registry_values env config more) e' h in
      let (e1, written, h2) =
        >>=-eq-ok (set_rendered env config r.name value e) (set_registry_values env config more) e'
          h1 in
      set_registry_values-find more e1 e' h2 ∙ set_rendered-find r.name value e e1 written

  -- The parts of the preparation after each of its steps.
  abbrev after_values : Creator → TemplateList → Entry → Result (Entry × Creator)
  after_values p templates e = prepare_steps env config e (steps_of templates) >>= λ steps.
      ok (e, record p { steps = p.steps ++ steps })

  abbrev after_binding : Creator → Entry → TemplateList → Result (Entry × Creator)
  after_binding p e templates =
      set_registry_values env config templates.registry e >>= after_values p templates

  abbrev after_plan : Creator → Entry → (service_id plan_id : String) → Result (Entry × Creator)
  after_plan p e service_id plan_id =
      get_template_binding config p.resource_type service_id plan_id >>= after_binding p e

  abbrev after_service : Creator → Entry → String → Result (Entry × Creator)
  after_service p e service_id =
      required_string Key.plan_id "resource reference missing: unable to lookup plan ID" e
      >>= after_plan p e service_id

  -- Whatever the registry values of a binding are, to prepare a creation changes neither the keys
  -- that hold the request and the operation nor those that identify the instance.
  pub prepare_creator-find :
      (p p' : Creator) (e e' : Entry)
      → prepare_creator env config p e ≡ ok (e', p')
      → find j e' ≡ find j e
  unfolding prepare_creator
  prepare_creator-find p p' e e' h =
      let (service_id, h0, h1) =
        >>=-eq-ok
          (required_string Key.service_id "resource reference missing: unable to lookup service ID"
            e)
          (after_service p e) (e', p') h in
      let (plan_id, h2, h3) =
        >>=-eq-ok
          (required_string Key.plan_id "resource reference missing: unable to lookup plan ID" e)
          (after_plan p e service_id) (e', p') h1 in
      let (templates, h4, h5) =
        >>=-eq-ok (get_template_binding config p.resource_type service_id plan_id)
          (after_binding p e) (e', p') h3 in
      let (e1, written, h6) =
        >>=-eq-ok (set_registry_values env config templates.registry e) (after_values p templates)
          (e', p') h5 in
      let (steps, h7, h8) =
        >>=-eq-ok (prepare_steps env config e1 (steps_of templates))
          (λ steps. ok (e1, record p { steps = p.steps ++ steps })) (e', p') h6 in
      let same : e1 ≡ e' = ground (arith, h8) in
      rw same at (set_registry_values-find templates.registry e e1 written)
