-- ===== src/Provisioner/Updater/Changes.antt =====
-- `Prepare` of pkg/provisioners/update.go: which objects an update writes.
use service_broker_k8s.Base.{
  ap, ◌∙◌, String, Bool, true, false, ◌≡◌, ◌⊎◌, inl, inr, refl, arith, Option, none, some, List, [],
  ◌∷◌, All, if◌then◌else◌, Bool-cases,
}
use mathlib.Core.Path.{subst}
use service_broker_k8s.Errors.{Result, ok, >>=-eq-ok, Result-cases}
use service_broker_k8s.Json.{Json, null, Bytes, json_equal}
use service_broker_k8s.Env.{Env, Mapping, to_result}
use service_broker_k8s.Config.{ServiceBrokerConfig, ConfigurationTemplate, TemplateList}
use service_broker_k8s.Registry.{Entry, get_string}
use service_broker_k8s.Registry.Key
use service_broker_k8s.Provisioner.{
  ResourceType, get_template_binding, get_template, namespace_or_default,
}
use service_broker_k8s.Provisioner.Object.{unmarshal_object}
use service_broker_k8s.Provisioner.Template.{render_template}
use service_broker_k8s.Provisioner.Creator.{scope}
use service_broker_k8s.Provisioner.Prepare.{required_string}
use service_broker_k8s.Provisioner.Updater.{
  Updater, new_updater, annotation_path, original_text, merged, rendered_bytes, update_of,
  update_one, with_resource, prepare_resources, prepare_updater,
}

-- A name of a list.
abbrev pub IsListed : String → List String → Type 0
IsListed name [] = ⊥
IsListed name (x ∷ more) = (x ≡ name) ⊎ IsListed name more

ok_injective : {A : Type 0} (a b : A) → ok a ≡ ok b → a ≡ b
ok_injective a b h = cc

of_else :
    {A : Type 0} (b : Bool) (m n : Result A)
    → b ≡ false
    → {r : Result A} → (if b then m else n) ≡ r
    → n ≡ r
of_else true m n h k = absurd (ground arith)
of_else false m n h k = k

required_string_found :
    (key missing : String) (e : Entry) (s : String)
    → required_string key missing e ≡ ok s
    → get_string key e ≡ ok (some s)
required_string_found key missing e s h = elim (Result-cases (get_string key e)) [
  | inl (none, read) ↦ absurd (ground (arith, read))
  | inl (some x, read) ↦ ground (arith, read)
  | inr (inl (r, read)) ↦ absurd (ground (arith, read))
  | inr (inr read) ↦ absurd (ground (arith, read))
]

module _ (env : Env) (config : ServiceBrokerConfig) (entry : Entry) (s : env.State) where
  -- An object that is to be written, and where it comes from: a template of the list that is not a
  -- singleton, whose rendering for the entry differs from what the object in the cluster was made
  -- from; it is that object with the difference.
  pub record IsChange (names : List String) (resource : Json) : Type 0 where
    pub name : String
    pub template : ConfigurationTemplate
    pub rendered : ConfigurationTemplate
    pub bytes : Bytes
    pub new_object : Json
    pub mapping : Mapping
    pub namespace : String
    pub current : Json
    pub original : String
    pub original_object : Json
    pub listed : IsListed name names
    pub configured : get_template config name ≡ ok template
    pub own : template.singleton ≡ false
    pub rendering : render_template env config env.stack_depth entry template null ≡ ok rendered
    pub encoded : rendered_bytes env rendered ≡ ok bytes
    pub new_read : unmarshal_object env bytes ≡ ok new_object
    pub mapped : env.object_mapping new_object ≡ ok mapping
    pub placed : namespace_or_default (env.object_namespace new_object) entry ≡ ok namespace
    pub existing :
        to_result (
          env.get_object mapping.resource
            (scope env mapping namespace)
            (env.object_name new_object)
            s)
        ≡ ok current
    pub annotated :
        original_text env (env.nested_string current (annotation_path env)) ≡ ok original
    pub original_read : unmarshal_object env (env.bytes_of_string original) ≡ ok original_object
    pub differs : json_equal original_object new_object ≡ false
    pub patched : merged env current (env.bytes_of_string original) bytes ≡ ok resource

  -- The pieces of an update of one template.
  update_of-IsChange :
      (names : List String) (name : String) (template rendered : ConfigurationTemplate)
      (bytes : Bytes) (resource : Json)
      → IsListed name names
      → get_template config name ≡ ok template
      → template.singleton ≡ false
      → render_template env config env.stack_depth entry template null ≡ ok rendered
      → rendered_bytes env rendered ≡ ok bytes
      → update_of env bytes entry s ≡ ok (some resource)
      → IsChange names resource
  unfolding update_of
  update_of-IsChange names name template rendered bytes resource listed configured own rendering
        encoded h =
      let (new_object, new_read, h1) = >>=-eq-ok (unmarshal_object env bytes) _ (some resource) h in
      let (mapping, mapped, h2) = >>=-eq-ok (env.object_mapping new_object) _ (some resource) h1 in
      let (namespace, placed, h3) =
        >>=-eq-ok (namespace_or_default (env.object_namespace new_object) entry) _ (some resource)
          h2 in
      let (current, existing, h4) =
        >>=-eq-ok
          (to_result (
            env.get_object mapping.resource (scope env mapping namespace)
              (env.object_name new_object) s))
          _ (some resource) h3 in
      let (original, annotated, h5) =
        >>=-eq-ok (original_text env (env.nested_string current (annotation_path env))) _
          (some resource) h4 in
      let (original_object, original_read, h6) =
        >>=-eq-ok (unmarshal_object env (env.bytes_of_string original)) _ (some resource) h5 in
      elim (Bool-cases (json_equal original_object new_object)) [
        | inl same ↦ absurd (ground (arith, same, h6))
        | inr differs ↦
            let (object, patched, h7) =
              >>=-eq-ok (merged env current (env.bytes_of_string original) bytes)
                (λ object. ok (some object)) (some resource) (rw differs at h6) in
            let same : object ≡ resource = ground (arith, h7) in
            record {
              name = name;
              template = template;
              rendered = rendered;
              bytes = bytes;
              new_object = new_object;
              mapping = mapping;
              namespace = namespace;
              current = current;
              original = original;
              original_object = original_object;
              listed = listed;
              configured = configured;
              own = own;
              rendering = rendering;
              encoded = encoded;
              new_read = new_read;
              mapped = mapped;
              placed = placed;
              existing = existing;
              annotated = annotated;
              original_read = original_read;
              differs = differs;
              patched = rw same at patched;
            }
      ]

  update_one-IsChange :
      (names : List String) (name : String) (template : ConfigurationTemplate) (resource : Json)
      → IsListed name names
      → get_template config name ≡ ok template
      → update_one env config entry s template ≡ ok (some resource)
      → IsChange names resource
  update_one-IsChange names name template resource listed configured h =
      elim (Bool-cases template.singleton) [
        | inl shared ↦ absurd (ground (arith, shared, h))
        | inr own ↦
            let (rendered, rendering, h1) =
              >>=-eq-ok (render_template env config env.stack_depth entry template null) _
                (some resource) (of_else template.singleton _ _ own h) in
            let (bytes, encoded, h2) =
              >>=-eq-ok (rendered_bytes env rendered) _ (some resource) h1 in
            update_of-IsChange names name template rendered bytes resource listed configured own
              rendering encoded h2
      ]

  with_resource-IsChange :
      (names : List String) (o : Option Json) (rest : List Json)
      → ((resource : Json) → o ≡ some resource → IsChange names resource)
      → All (IsChange names) rest
      → All (IsChange names) (with_resource o rest)
  with_resource-IsChange names none rest made h = h
  with_resource-IsChange names (some resource) rest made h = (made resource refl, h)

  prepare_resources-IsChange :
      (names some_names : List String) (resources : List Json)
      → ((name : String) → IsListed name some_names → IsListed name names)
      → prepare_resources env config entry s some_names ≡ ok resources
      → All (IsChange names) resources
  unfolding prepare_resources
  prepare_resources-IsChange names [] resources within h =
      subst (λ x. All (IsChange names) x) (ok_injective [] resources h) tt
  prepare_resources-IsChange names (name ∷ more) resources within h =
      let (template, configured, h1) = >>=-eq-ok (get_template config name) _ resources h in
      let (o, updated, h2) = >>=-eq-ok (update_one env config entry s template) _ resources h1 in
      let (rest, prepared, h3) =
        >>=-eq-ok (prepare_resources env config entry s more) (λ rest. ok (with_resource o rest))
          resources h2 in
      let same : with_resource o rest ≡ resources = ground (arith, h3) in
      subst (λ x. All (IsChange names) x) same
        (with_resource-IsChange names o rest
          (λ resource made.
            update_one-IsChange names name template resource (within name (inl refl)) configured
              (updated ∙ ap ok made))
          (prepare_resources-IsChange names more rest (λ n listed. within n (inr listed)) prepared))

  -- An update that is prepared writes only objects of the templates of the binding of the entry's
  -- service and plan: each is rendered from a template that is not a singleton, differs from what
  -- the object in the cluster was made from, and is that object with the difference.
  pub prepare_updater-IsChange :
      (u : Updater) (t : ResourceType)
      → prepare_updater env config (new_updater t) entry s ≡ ok u
      → (service_id plan_id : String) × (templates : TemplateList) × (get_string Key.service_id
            entry
          ≡ ok (some service_id))
        × (get_string Key.plan_id entry ≡ ok (some plan_id))
        × (get_template_binding config t service_id plan_id ≡ ok templates)
        × All (IsChange templates.templates) u.resources
  unfolding prepare_updater
  prepare_updater-IsChange u t h =
      let (service_id, h0, h1) = >>=-eq-ok (required_string Key.service_id _ entry) _ u h in
      let (plan_id, h2, h3) = >>=-eq-ok (required_string Key.plan_id _ entry) _ u h1 in
      let (templates, h4, h5) =
        >>=-eq-ok (get_template_binding config t service_id plan_id) _ u h3 in
      let (resources, h6, h7) =
        >>=-eq-ok (prepare_resources env config entry s templates.templates)
          (λ resources. ok (record (new_updater t) { resources = resources })) u h5 in
      let same : record (new_updater t) { resources = resources } ≡ u = ground (arith, h7) in
      (
        service_id,
        plan_id,
        templates,
        required_string_found Key.service_id _ entry service_id h0,
        required_string_found Key.plan_id _ entry plan_id h2,
        h4,
        subst (λ x. All (IsChange templates.templates) x.resources) same
            (prepare_resources-IsChange templates.templates templates.templates resources
              (λ name listed. listed) h6),
      )
