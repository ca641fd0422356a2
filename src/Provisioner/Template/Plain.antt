-- ===== src/Provisioner/Template/Plain.antt =====
-- pkg/provisioners/template.go: templates without dynamic attributes.
use service_broker_k8s.Base.{ℕ, suc, String, false, ◌≡◌, refl, some, arith}
use service_broker_k8s.Base.Text.{starts_with}
use service_broker_k8s.Errors.{Result, ok}
use service_broker_k8s.Json.{
  Json, null, bool, number, str, arr, obj, Items, nil, cons, Fields, end, field, text, marshal,
}
use service_broker_k8s.Env.{Env}
use service_broker_k8s.Config.{ServiceBrokerConfig, ConfigurationTemplate}
use service_broker_k8s.Registry.{Entry}
use service_broker_k8s.Provisioner.Template.{
  is_null, render_value, render_fields, render_items, render_with, render_string, render_template,
}

unfoldable mutual
  -- A value none of whose texts is a dynamic attribute, and none of whose fields is null.
  pub IsPlain : Json → Type 0
  IsPlain (str s) = starts_with s "{{" ≡ false
  IsPlain (obj fs) = IsPlainFields fs
  IsPlain (arr xs) = IsPlainItems xs
  IsPlain _ = Unit

  pub IsPlainFields : Fields → Type 0
  IsPlainFields end = Unit
  IsPlainFields (field _ v more) = (is_null v ≡ false) × IsPlain v × IsPlainFields more

  pub IsPlainItems : Items → Type 0
  IsPlainItems nil = Unit
  IsPlainItems (cons v more) = IsPlain v × IsPlainItems more

module _ (f : String → Result Json)
    (keeps : (s : String) → starts_with s "{{" ≡ false → f s ≡ ok (str s)) where
  mutual
    unfolding IsPlain IsPlainFields IsPlainItems render_value render_fields render_items

    value_keeps : (v : Json) → IsPlain v → render_value f v ≡ ok v
    value_keeps null h = refl
    value_keeps (bool b) h = refl
    value_keeps (number n) h = refl
    value_keeps (str s) h = keeps s h
    value_keeps (arr xs) h = rw (items_keep xs h) refl
    value_keeps (obj fs) h = rw (fields_keep fs h) refl

    fields_keep : (fs : Fields) → IsPlainFields fs → render_fields f fs ≡ ok fs
    fields_keep end h = refl
    fields_keep (field k v more) (there, plain, rest) =
        rw (value_keeps v plain, there, fields_keep more rest) refl

    items_keep : (xs : Items) → IsPlainItems xs → render_items f xs ≡ ok xs
    items_keep nil h = refl
    items_keep (cons v more) (plain, rest) = rw (value_keeps v plain, items_keep more rest) refl

-- A template without dynamic attributes and null fields is rendered to its own value, written anew:
-- whatever the registry holds, and whichever input it is rendered on.
pub render_template-plain :
    (env : Env) (config : ServiceBrokerConfig) (depth : ℕ) (entry : Entry)
    (template : ConfigurationTemplate) (input value : Json) (spelling layout : ℕ)
    → template.template ≡ some (some (text value spelling layout))
    → IsPlain value
    → render_template env config (suc depth) entry template input
      ≡ ok (record template { template = some (some (marshal value)) })
unfolding render_template render_string render_with
render_template-plain env config depth entry template input value spelling layout held plain =
    ground (
      arith,
      held,
      value_keeps (λ s. render_string env config (suc depth) entry s input) (λ s h. rw h refl) value
          plain,
    )
