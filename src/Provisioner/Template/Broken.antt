-- ===== src/Provisioner/Template/Broken.antt =====
-- renderTemplateString of pkg/provisioners/template.go on a text whose template has an `if` without
-- an `else`.
use service_broker_k8s.Base.{◌≡◌, ℕ, suc, String, true}
use service_broker_k8s.Base.Text.{starts_with, ends_with}
use service_broker_k8s.Errors.{ok, panic}
use service_broker_k8s.Json.{Json}
use service_broker_k8s.Env.{Env}
use service_broker_k8s.ParseTree.{Listing}
use service_broker_k8s.Config.{ServiceBrokerConfig}
use service_broker_k8s.Registry.{Entry}
use service_broker_k8s.Provisioner.Template.{render_string}
use service_broker_k8s.Provisioner.Template.Actions.Total.{IsWholeList, transform_list-panic_iff}

-- A dynamic attribute that parses to a tree with a nil list or pipe on the way of the walk over it,
-- such as an `if` without an `else`, panics when it is rendered: whatever the functions that it calls
-- would give, and whatever the registry holds.
pub render_string-panics :
    (env : Env) (config : ServiceBrokerConfig) (depth : ℕ) (entry : Entry) (s : String)
    (input : Json) (root : Listing)
    → starts_with s "{{" ≡ true
    → ends_with s "}}" ≡ true
    → env.parse_template s ≡ ok root
    → (IsWholeList root → ⊥)
    → render_string env config (suc depth) entry s input ≡ panic
unfolding render_string
render_string-panics env config depth entry s input root opens closes parsed broken =
    rw (opens, closes, parsed, (transform_list-panic_iff root).1 broken)
