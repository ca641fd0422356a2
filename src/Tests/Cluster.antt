-- ===== src/Tests/Cluster.antt =====
-- A cluster in memory, and small stand-ins for the packages that the broker calls.
use service_broker_k8s.Base.{
  String, Bool, true, false, ◌≡◌, ◌≢◌, ◌⊎◌, refl, Option, none, some, List, [], ◌∷◌, ◌==◌, ◌&&◌,
  arith, if◌then◌else◌, eq_refl, eq_iff,
}
use service_broker_k8s.Base.{ℕ, ◌+◌, leb}
use service_broker_k8s.Base.Text.{codes}
use service_broker_k8s.Crypto.{Crypto, PrivateKey, rsa_key, ecdsa_key, ed25519_key, rsa_public}
use service_broker_k8s.ParseTree.{list_of, no_nodes}
use service_broker_k8s.Base.Dict.{Dict}
use mathlib.Core.Path.{subst}
use service_broker_k8s.Errors.{Error, Result, ok, err, other}
use service_broker_k8s.Json.{
  Json, null, str, obj, Fields, field, end, Bytes, text, marshal, unmarshal,
}
use service_broker_k8s.Env.{Env, Secret, Answer, answer, not_found, already_exists, JwtToken}
use service_broker_k8s.Registry.Persistence.{KeepsSecrets}

-- The secrets by namespace and name.
abbrev pub Secrets : Type 0
Secrets = String → String → Option Secret

abbrev is_at : String → String → String → String → Bool
is_at ns n ns' n' = ns == ns' && n == n'

abbrev stored_at : String → String → Option Secret → Secrets → Secrets
stored_at ns n x s = λ ns' n'. if is_at ns n ns' n' then x else s ns' n'

abbrev found : String → String → Option Secret → Answer Secret
found ns n none = not_found
found ns n (some x) = answer (record x { namespace = ns; name = n })

abbrev pub get_secret : (namespace name : String) → Secrets → Answer Secret
get_secret ns n s = found ns n (s ns n)

abbrev create_if : Option Secret → Secret → Secrets → Answer Secret × Secrets
create_if none x s = (answer x, stored_at x.namespace x.name (some x) s)
create_if (some _) x s = (already_exists, s)

abbrev update_if : Option Secret → Secret → Secrets → Answer Secret × Secrets
update_if none x s = (not_found, s)
update_if (some _) x s = (answer x, stored_at x.namespace x.name (some x) s)

abbrev delete_if : Option Secret → String → String → Secrets → Answer (Unit {0}) × Secrets
delete_if none ns n s = (not_found, s)
delete_if (some _) ns n s = (answer tt, stored_at ns n none s)

abbrev raw_unmarshal : Bytes → Result (Option Bytes)
raw_unmarshal (text null _ _) = ok none
raw_unmarshal b = ok (some b)

abbrev raw_marshal : Option Bytes → Result Bytes
raw_marshal none = ok (text null 0 0)
raw_marshal (some b) = ok b

abbrev field_text : String → Fields → Option String
field_text k end = none
field_text k (field j (str s) more) = if j == k then some s else field_text k more
field_text k (field j _ more) = field_text k more

abbrev text_at : Json → List String → Result (Option String)
text_at (obj fs) (k ∷ []) = ok (field_text k fs)
text_at _ _ = ok none

abbrev parse_token : ((is_hmac : Bool) → Result String) → String → Option JwtToken × Option Error
parse_token key token =
    if token == "alice"
    then (some (record { valid = true; claims = some (("username", str "alice") ∷ []) }), none)
    else (none, some (other "token is malformed"))

-- The user alice has bought the plan `plan` of the service `service`.
abbrev rows_of : String → Result (List (Result (String × String)))
rows_of username = if username == "alice" then ok (ok ("service", "plan") ∷ []) else ok []

abbrev pkcs8_octets : PrivateKey (Unit {0}) (Unit {0}) (Unit {0}) → Result (Unit {0})
pkcs8_octets (rsa_key k) = ok tt
pkcs8_octets (ecdsa_key k) = err (other "unsupported")
pkcs8_octets (ed25519_key k) = err (other "unsupported")

-- There is one key of each type and one string of octets; a draw is its index where the limit
-- allows it.
abbrev pub toy_crypto : Crypto
toy_crypto = record {
  Chance = Unit;
  Octets = Unit;
  rand_int = λ c limit i. if leb limit i then err (other "limit") else ok i;
  petname_generate = λ c words separator. "pet";
  utf8 = codes;
  of_utf8 = λ cs. "text";
  to_upper = λ s. s;
  to_lower = λ s. s;
  to_title = λ s. s;
  RsaKey = Unit;
  EcdsaKey = Unit;
  Ed25519Key = Unit;
  rsa_generate_key = λ c bits. ok tt;
  ecdsa_generate_key = λ c curve. ok tt;
  ed25519_generate_key = λ c. ok tt;
  marshal_pkcs1 = λ k. tt;
  marshal_pkcs8 = pkcs8_octets;
  marshal_ec = λ k. ok tt;
  parse_pkcs1 = λ x. ok tt;
  parse_pkcs8 = λ x. ok (rsa_key tt);
  parse_ec = λ x. ok tt;
  pem_encode = λ b. b.block_type;
  pem_decode = λ s. (some (record { block_type = s; octets = tt }), "");
  RsaPublicKey = Unit;
  EcdsaPublicKey = Unit;
  Subject = String;
  create_certificate_request = λ c cn key. ok tt;
  parse_certificate_request = λ x. ok ("subject", rsa_public tt);
  asn1_marshal = λ k. ok tt;
  elliptic_marshal = λ k. tt;
  sha1_sum = λ x. x;
  Time = ℕ;
  Duration = ℕ;
  parse_duration = λ s. ok 60;
  time_now = λ c. 7;
  time_add = λ t d. t + d;
  parse_certificate = λ x. err (other "malformed");
  create_certificate = λ c cert parent public key. ok tt;
}

abbrev pub cluster : Env
cluster = record {
  application = "broker";
  version = "1.0";
  State = Secrets;
  get_secret = get_secret;
  create_secret = λ x s. create_if (s x.namespace x.name) x s;
  update_secret = λ x s. update_if (s x.namespace x.name) x s;
  delete_secret = λ ns n s. delete_if (s ns n) ns n s;
  update_config = λ c s. (answer c, s);
  now = λ s. 7;
  new_uuid = λ s. ("id", s);
  raw_marshal_json = raw_marshal;
  raw_unmarshal_json = raw_unmarshal;
  pointer_new = λ path. ok tt;
  pointer_get = λ path v. err (other "not found");
  Schema = Unit;
  schema_unmarshal_json = λ b. ok tt;
  against_schema = λ schema v. ok tt;
  stack_depth = 2;
  crypto = toy_crypto;
  format_argument = λ x. "";
  format_raw = λ x. "";
  format_alone = λ s. s;
  parse_template = λ s. ok (list_of no_nodes);
  execute_template = λ functions tree v. ok (marshal v);
  object_unmarshal_json = unmarshal;
  object_marshal_json = λ v. ok (marshal v);
  object_name = λ v. "object";
  object_namespace = λ v. "";
  nested_string = text_at;
  nested_string_map = λ v path. ok none;
  set_nested_string_map = λ v d path. ok v;
  nested_slice = λ v path. ok none;
  set_nested_slice = λ v vs path. ok v;
  set_nested_string = λ v s path. ok v;
  set_owner_references = λ v refs. v;
  owner_reference_to_unstructured = λ r. ok null;
  object_mapping = λ v. ok (record { resource = "pods"; is_root = false });
  kind_mapping = λ version kind. ok (record { resource = "pods"; is_root = false });
  get_object = λ resource ns n s. not_found;
  create_object = λ resource ns v s. (answer v, s);
  update_object = λ resource ns v s. (answer v, s);
  create_merge_patch = λ a b. ok b;
  merge_patch = λ a b. ok b;
  string_of_bytes = λ b. "";
  bytes_of_string = λ s. text (str s) 0 0;
  ticks = λ timeout s. 1;
  retry_period = λ s. s;
  jwt_parse = parse_token;
  jwt_sign = λ username secret. ok username;
  bought_services = λ username s. rows_of username;
  has_user = λ username hashed s. ok (username == "alice");
  sha256_hex = λ s. s;
  base64_encode = λ s. s;
  Float = Bool;
  parse_float = λ s. ok (s == "1.0");
  below_minimum = λ f. f;
}

abbrev pub no_secrets : Secrets
no_secrets = λ ns n. none

abbrev Reads : Secret → Secret → Secrets → Type 0
Reads x y s' =
    (get_secret x.namespace x.name s' ≡ answer y)
    × (y.data_map ≡ x.data_map)
    × (y.namespace ≡ x.namespace)
    × (y.name ≡ x.name)

stored_Reads : (x : Secret) (s : Secrets) → Reads x x (stored_at x.namespace x.name (some x) s)
stored_Reads x s = (rw (eq_refl x.namespace, eq_refl x.name) refl, refl, refl, refl)

stored_at-Reads :
    (x y : Secret) (s s' : Secrets)
    → ◌≡◌ {A = Answer Secret × Secrets}
        (answer x, stored_at x.namespace x.name (some x) s)
        (answer y, s')
    → Reads x y s'
stored_at-Reads x y s s' h =
    let same : x ≡ y = cc in
    let stored : stored_at x.namespace x.name (some x) s ≡ s' = cc in
    subst (λ z. Reads x z s') same (subst (λ z. Reads x x z) stored (stored_Reads x s))

create_Reads :
    (o : Option Secret) (x y : Secret) (s s' : Secrets)
    → create_if o x s ≡ (answer y, s')
    → Reads x y s'
create_Reads none x y s s' h = stored_at-Reads x y s s' h
create_Reads (some _) x y s s' h = absurd (ground (arith, h))

update_Reads :
    (o : Option Secret) (x y : Secret) (s s' : Secrets)
    → update_if o x s ≡ (answer y, s')
    → Reads x y s'
update_Reads none x y s s' h = absurd (ground (arith, h))
update_Reads (some _) x y s s' h = stored_at-Reads x y s s' h

apart_test : (ns n ns' n' : String) → (ns ≢ ns') ⊎ (n ≢ n') → is_at ns n ns' n' ≡ false
apart_test ns n ns' n' apart = ground (arith, eq_iff ns ns', eq_iff n n')

create_other :
    (o : Option Secret) (x : Secret) (s : Secrets) (ns n : String)
    → (x.namespace ≢ ns) ⊎ (x.name ≢ n)
    → get_secret ns n (create_if o x s).1 ≡ get_secret ns n s
create_other none x s ns n apart = rw (apart_test x.namespace x.name ns n apart) refl
create_other (some _) x s ns n apart = refl

update_other :
    (o : Option Secret) (x : Secret) (s : Secrets) (ns n : String)
    → (x.namespace ≢ ns) ⊎ (x.name ≢ n)
    → get_secret ns n (update_if o x s).1 ≡ get_secret ns n s
update_other none x s ns n apart = refl
update_other (some _) x s ns n apart = rw (apart_test x.namespace x.name ns n apart) refl

delete_read :
    (o : Option Secret) (ns n : String) (s : Secrets)
    → (delete_if o ns n s).0 ≡ answer tt
    → get_secret ns n (delete_if o ns n s).1 ≡ not_found
delete_read none ns n s h = absurd (ground (arith, h))
delete_read (some _) ns n s h = rw (eq_refl ns, eq_refl n) refl

delete_other :
    (o : Option Secret) (ns n ns' n' : String) (s : Secrets)
    → (ns ≢ ns') ⊎ (n ≢ n')
    → get_secret ns' n' (delete_if o ns n s).1 ≡ get_secret ns' n' s
delete_other none ns n ns' n' s apart = refl
delete_other (some _) ns n ns' n' s apart = rw (apart_test ns n ns' n' apart) refl

found_named :
    (o : Option Secret) (ns n : String) (x : Secret)
    → found ns n o ≡ answer x
    → (x.namespace ≡ ns) × (x.name ≡ n)
found_named none ns n x h = absurd (ground (arith, h))
found_named (some y) ns n x h =
    let same : record y { namespace = ns; name = n } ≡ x = cc in
    subst (λ z. (z.namespace ≡ ns) × (z.name ≡ n)) same (refl, refl)

pub cluster-KeepsSecrets : KeepsSecrets cluster
cluster-KeepsSecrets = record {
  create_read = λ x y s s' h. create_Reads (s x.namespace x.name) x y s s' h;
  update_read = λ x y s s' h. update_Reads (s x.namespace x.name) x y s s' h;
  create_other = λ x s ns n apart. create_other (s x.namespace x.name) x s ns n apart;
  update_other = λ x s ns n apart. update_other (s x.namespace x.name) x s ns n apart;
  delete_read = λ ns n s h. delete_read (s ns n) ns n s h;
  delete_other = λ ns n ns' n' s apart. delete_other (s ns n) ns n ns' n' s apart;
  new_uuid_read = λ ns n s. refl;
  get_named = λ ns n x s h. found_named (s ns n) ns n x h;
}

-- A secret of the registry.
abbrev pub secret_of : (namespace name : String) → Dict Bytes → Secret
secret_of namespace name table = record {
  namespace = namespace;
  name = name;
  labels = [];
  annotations = [];
  uid = "";
  resource_version = "";
  data_map = some table;
}

-- The cluster with one more secret.
abbrev pub with_secret : Secret → Secrets → Secrets
with_secret x s = stored_at x.namespace x.name (some x) s
