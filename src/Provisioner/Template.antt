-- ===== src/Provisioner/Template.antt =====
-- pkg/provisioners/template.go and renderTemplate of util.go: how the templates of the
-- configuration are rendered.
pub mod Actions
pub mod Functions
pub mod Broken
pub mod Plain
use service_broker_k8s.Base.{
  not, ℕ, zero, suc, String, Bool, true, false, none, some, List, [], ◌∷◌, if◌then◌else◌, sprintf,
  or_default,
}
use service_broker_k8s.Base.Text.{starts_with, ends_with}
use service_broker_k8s.Errors.{
  Error, Result, ok, err, panic, other, configuration_error, message, or_fail, fail_if, ◌>>=◌, ◌>>◌,
}
use service_broker_k8s.Json.{
  Json, null, str, arr, obj, Items, nil, cons, Fields, end, field, Bytes, unmarshal, marshal,
}
use service_broker_k8s.Env.{Env, Argument, TemplateFunctions}
use service_broker_k8s.Provisioner.Template.Actions.{transform_list}
use service_broker_k8s.Provisioner.Template.Functions.{
  generate_password, generate_pet_name, generate_private_key, template_certificate,
}
use service_broker_k8s.Config.{ServiceBrokerConfig, ConfigurationTemplate}
use service_broker_k8s.Registry.{Entry, get, get_user}
use service_broker_k8s.Registry.Key
use service_broker_k8s.Provisioner.{get_template}

abbrev pub is_null : Json → Bool
is_null null = true
is_null _ = false

-- An error under a prefix, as a configuration error.
abbrev as_configuration {ℓ} : {A : Type ℓ} → String → Result A → Result A
as_configuration prefix (ok a) = ok a
as_configuration prefix (err e) = err (configuration_error (sprintf (prefix ∷ message e ∷ [])))
as_configuration prefix panic = panic

-- `templateFunctionRegistry`; a missing key is nil.
unfoldable pub template_registry : Entry → String → Result Json
unfolding get_user message
template_registry entry key = do
  value ← as_configuration "registry read error: " (get_user key entry)
  ok (or_default value null)

-- `templateFunctionRequired`
unfoldable pub template_required : Json → Result Json
template_required value =
    if is_null value then err (configuration_error "required value is nil") else ok value

-- `templateFunctionGenerateDefault`
unfoldable pub template_default : Json → Json → Json
template_default def value = if is_null value then def else value

module _ (render_string : String → Result Json) where
  unfoldable mutual
    -- `recurseRenderTemplate`. A field that renders to nil is deleted, and ends the loop over the
    -- fields; an element that does is kept.
    pub render_value : Json → Result Json
    render_value (obj fs) = do fs' ← render_fields fs; ok (obj fs')
    render_value (arr xs) = do xs' ← render_items xs; ok (arr xs')
    render_value (str s) = render_string s
    render_value v = ok v

    pub render_fields : Fields → Result Fields
    render_fields end = ok end
    render_fields (field k v more) = do
      value ← render_value v
      if is_null value then ok more else (do rest ← render_fields more; ok (field k value rest))

    pub render_items : Items → Result Items
    render_items nil = ok nil
    render_items (cons v more) = do
      value ← render_value v
      rest ← render_items more
      ok (cons value rest)

module _ (env : Env) (config : ServiceBrokerConfig) where
  open env use {pointer_new, pointer_get, parse_template, execute_template}

  -- A path that finds nothing is nil.
  abbrev found_or_null : Result Json → Result Json
  found_or_null (ok v) = ok v
  found_or_null (err _) = ok null
  found_or_null panic = panic

  abbrev parameter_at : String → Json → Result Json
  parameter_at path null = ok null
  parameter_at path v = do
    as_configuration "json pointer malformed: " (pointer_new path)
    found_or_null (pointer_get path v)

  -- `templateFunctionParameter`
  unfoldable pub template_parameter : Entry → String → Result Json
  unfolding get unmarshal message
  template_parameter entry path = do
    stored ← get unmarshal Key.parameters entry
    parameters ← or_fail stored (other "registry entry missing: unable to lookup parameters")
    parameter_at path parameters

  -- The bytes of a template that is defined.
  abbrev template_bytes : ConfigurationTemplate → Result Bytes
  template_bytes t =
      or_fail (or_default t.template none)
        (configuration_error (sprintf ("template " ∷ t.name ∷ " is not defined" ∷ [])))

  -- `renderTemplate`, over the rendering of texts.
  unfoldable pub render_with :
      (String → Result Json) → ConfigurationTemplate → Result ConfigurationTemplate
  unfolding unmarshal marshal
  render_with render_string template = do
    raw ← template_bytes template
    object ← unmarshal raw
    rendered ← render_value render_string object
    ok (record template { template = some (some (marshal rendered)) })

  -- The value of a rendered template.
  abbrev snippet_value : ConfigurationTemplate → Result Json
  snippet_value t = do
    raw ← template_bytes t
    as_configuration "template not JSON formatted: " (unmarshal raw)

  -- `renderTemplateString` and `renderTemplate`, as deep as the stack of the process allows. The
  -- functions of a template render the snippets that it calls, one level further down.
  abbrev each_snippet : (Json → Result Json) → List Json → Result (List Json)
  each_snippet f [] = ok []
  each_snippet f (x ∷ xs) = do value ← f x; rest ← each_snippet f xs; ok (value ∷ rest)

  -- A template rendered on one value, as a value.
  abbrev rendered_value : (String → Json → Result Json) → ConfigurationTemplate → Json → Result Json
  rendered_value render_string template input = do
    rendered ← render_with (λ s. render_string s input) template
    snippet_value rendered

  -- `templateFunctionSnippet`
  abbrev template_snippet : (String → Json → Result Json) → String → Result Json
  template_snippet render_string name = do
    template ← get_template config name
    rendered_value render_string template null

  -- `templateFunctionSnippetArray`
  abbrev template_snippet_array :
      (String → Json → Result Json) → String → List Json → Result (List Json)
  template_snippet_array render_string name inputs = do
    template ← get_template config name
    each_snippet (rendered_value render_string template) inputs

  -- A name of a certificate that is no text, as `%v` writes it.
  abbrev san_error : Argument → Error
  san_error x =
      configuration_error (sprintf ("SAN " ∷ env.format_argument x ∷ " not a strings" ∷ []))

  -- The functions that `renderTemplateString` hands to the template engine.
  abbrev functions : (String → Json → Result Json) → Entry → TemplateFunctions env.crypto.Chance
  functions render_string entry = record {
    registry = template_registry entry;
    parameter = template_parameter entry;
    snippet = template_snippet render_string;
    snippet_array = template_snippet_array render_string;
    required = template_required;
    default = template_default;
    list = λ elements. elements;
    generate_password = generate_password env.crypto;
    generate_pet_name = generate_pet_name env.crypto;
    generate_private_key = generate_private_key env.crypto;
    generate_certificate = template_certificate env.crypto san_error;
    upper = env.crypto.to_upper;
    lower = env.crypto.to_lower;
    title = env.crypto.to_title;
    json = λ v. ok (env.string_of_bytes (marshal v));
  }

  -- The part of `renderTemplateString` that follows the check of the prefix.
  abbrev expand : (String → Json → Result Json) → Entry → String → Json → Result Json
  expand render_string entry s input = do
    fail_if (not (ends_with s "}}"))
        (configuration_error (sprintf ("dynamic attribute '" ∷ s ∷ "' malformed" ∷ [])))
    root ← parse_template s
    root' ← transform_list root
    rendered ←
        as_configuration "dynamic attribute resolution failed: "
          (execute_template (functions render_string entry) root' input)
    unmarshal rendered

  -- `renderTemplateString`
  unfoldable pub render_string : ℕ → Entry → String → Json → Result Json
  unfolding transform_list generate_password generate_pet_name generate_private_key
      template_certificate render_with template_registry template_parameter template_required
      template_default get_template
  render_string zero entry s input = panic
  render_string (suc depth) entry s input =
      let expanded = expand (render_string depth entry) entry s input in
      if starts_with s "{{" then expanded else ok (str s)

  -- `renderTemplate`
  unfoldable pub render_template :
      ℕ → Entry → ConfigurationTemplate → Json → Result ConfigurationTemplate
  unfolding render_string render_with
  render_template depth entry template input =
      render_with (λ s. render_string depth entry s input) template
