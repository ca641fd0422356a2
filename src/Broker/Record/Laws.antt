-- ===== src/Broker/Record/Laws.antt =====
-- What the entries that the broker records of a request hold.
use service_broker_k8s.Base.{
  String, Bool, true, ◌≡◌, ◌≢◌, Option, none, some, ◌==◌, arith, or_default, if◌then◌else◌, ap, ◌∙◌,
  eq_iff,
}
use service_broker_k8s.Base.Dict.{or_else}
use service_broker_k8s.Errors.{ok, >>=-eq-ok, ◌>>=◌}
use service_broker_k8s.Json.{Bytes, str, marshal, unmarshal_string, check_valid, compact}
use service_broker_k8s.Env.{Env}
use service_broker_k8s.Http.{CreateServiceInstanceRequest}
use service_broker_k8s.Registry.{
  new, commit, resource_name, Entry, get_string, get_raw, set_string, set_raw, find, set, get,
  decoded, inherit,
}
use service_broker_k8s.Registry.Key
use service_broker_k8s.Registry.Persistence.{KeepsSecrets, new-commit}
use service_broker_k8s.Registry.Values.{find-set, find-inherit, put, set_string_total}
use service_broker_k8s.Broker.Record.{instance_record, binding_record}
use service_broker_k8s.Broker.Create.Repeat.{Records}

module _ (env : Env) where
  -- A raw extension that comes back from the registry with the bytes that it was written with.
  -- The registry holds it without its spaces.
  abbrev pub IsStable : Option Bytes → Type 0
  IsStable raw =
      (b : Bytes)
      → (env.raw_marshal_json raw >>= compact) ≡ ok b
      → (check_valid b >>= env.raw_unmarshal_json) ≡ ok raw

  find-set_string :
      (k j s : String) (e e' : Entry)
      → set_string k s e ≡ ok e'
      → find j e' ≡ (if k == j then some (marshal (str s)) else find j e)
  unfolding set_string
  find-set_string k j s e e' h = find-set k j (marshal (str s)) e e' h

  find-put :
      (k j s : String) (e : Entry)
      → find j (put k s e) ≡ (if k == j then some (marshal (str s)) else find j e)
  find-put k j s e = find-set_string k j s e (put k s e) (set_string_total k s e)

  find-set_raw :
      (k : String) (raw : Option Bytes) (e e' : Entry)
      → set_raw env k raw e ≡ ok e'
      → (b : Bytes) × ((env.raw_marshal_json raw >>= compact) ≡ ok b)
        × ((j : String) → find j e' ≡ (if k == j then some b else find j e))
  unfolding set_raw set
  find-set_raw k raw e e' h =
      let (b, encoded, written) = >>=-eq-ok (env.raw_marshal_json raw >>= compact) _ e' h in
      (b, encoded, λ j. find-set k j b e e' (ground (arith, written)))

  get_raw_of_find :
      (k : String) (raw : Option Bytes) (e : Entry) (b : Bytes)
      → IsStable raw
      → (env.raw_marshal_json raw >>= compact) ≡ ok b
      → find k e ≡ some b
      → get_raw env k e ≡ ok (some raw)
  unfolding get_raw get
  get_raw_of_find k raw e b stable encoded held = ground (arith, held, stable b encoded)

  get_string_of_find :
      (k s : String) (e : Entry) → find k e ≡ some (marshal (str s)) → get_string k e ≡ ok (some s)
  unfolding get_string get marshal unmarshal_string
  get_string_of_find k s e held = ground (arith, held)

  -- The entry that is recorded of a request for an instance holds what a repetition of the request
  -- is compared with, and the instance's namespace and ID, where the context and the parameters come
  -- back from the registry as they were.
  pub instance_record-Records :
      (namespace instance_id : String) (request : CreateServiceInstanceRequest) (e e' : Entry)
      → IsStable (or_default request.context none)
      → IsStable (or_default request.parameters none)
      → instance_record env namespace instance_id request.service_id request.plan_id request.context
          request.parameters e
        ≡ ok e'
      → Records env request e'
        × (get_string Key.namespace e' ≡ ok (some namespace))
        × (get_string Key.instance_id e' ≡ ok (some instance_id))
  unfolding instance_record set_string
  instance_record-Records namespace instance_id request e e' stable_c stable_p h =
      let e1 = put Key.namespace namespace e in
      let e2 = put Key.instance_id instance_id e1 in
      let e3 = put Key.service_id request.service_id e2 in
      let e4 = put Key.plan_id request.plan_id e3 in
      let context = or_default request.context none in
      let parameters = or_default request.parameters none in
      let (e5, w5, h5) =
        >>=-eq-ok (set_raw env Key.context context e4)
          (λ x. set_raw env Key.parameters parameters x) e' h in
      let (b, encoded, wb) = find-set_raw Key.context context e4 e5 w5 in
      let (b', encoded', wb') = find-set_raw Key.parameters parameters e5 e' h5 in
      let plan = λ (j : String). find-put Key.plan_id j request.plan_id e3 in
      let service = λ (j : String). find-put Key.service_id j request.service_id e2 in
      let instance = λ (j : String). find-put Key.instance_id j instance_id e1 in
      (
        record {
          service = get_string_of_find Key.service_id request.service_id e' (
              wb' Key.service_id
              ∙ wb Key.service_id
              ∙ plan Key.service_id
              ∙ service Key.service_id);
          plan =
              get_string_of_find Key.plan_id request.plan_id e'
                (wb' Key.plan_id ∙ wb Key.plan_id ∙ plan Key.plan_id);
          context =
              get_raw_of_find Key.context context e' b stable_c encoded
                (wb' Key.context ∙ wb Key.context);
          parameters =
              get_raw_of_find Key.parameters parameters e' b' stable_p encoded'
                (wb' Key.parameters);
        },
        get_string_of_find Key.namespace namespace e' (
            wb' Key.namespace
            ∙ wb Key.namespace
            ∙ plan Key.namespace
            ∙ service Key.namespace
            ∙ instance Key.namespace
            ∙ find-put Key.namespace Key.namespace namespace e),
        get_string_of_find Key.instance_id instance_id e' (
            wb' Key.instance_id
            ∙ wb Key.instance_id
            ∙ plan Key.instance_id
            ∙ service Key.instance_id
            ∙ instance Key.instance_id),
      )

  -- Of every key but those of the request, the entry of a binding has the instance's value, and where
  -- the instance has none its own.
  pub binding_record-find :
      (binding_id : String) (context parameters : Option (Option Bytes))
      (instance_entry e e' : Entry)
      → binding_record env binding_id context parameters instance_entry e ≡ ok e'
      → (j : String) → j ≢ Key.binding_id
      → j ≢ Key.context
      → j ≢ Key.parameters
      → find j e' ≡ or_else (find j instance_entry) (find j e)
  unfolding binding_record set_string
  binding_record-find binding_id context parameters o e e' h j nb nc np =
      let e0 = inherit e o in
      let e1 = put Key.binding_id binding_id e0 in
      let c = or_default context none in
      let p = or_default parameters none in
      let (e2, w2, h2) =
        >>=-eq-ok (set_raw env Key.context c e1) (λ x. set_raw env Key.parameters p x) e' h in
      ground (
        arith,
        (find-set_raw Key.parameters p e2 e' h2).2 j,
        (find-set_raw Key.context c e1 e2 w2).2 j,
        find-put Key.binding_id j binding_id e0,
        find-inherit j e o,
        eq_iff Key.parameters j,
        eq_iff Key.context j,
        eq_iff Key.binding_id j,
      )

  -- The entry that is recorded of a request for a binding has its own ID, context and parameters; of
  -- every other key it has the instance's value, and where the instance has none its own.
  pub binding_record-inherits :
      (binding_id : String) (context parameters : Option (Option Bytes))
      (instance_entry e e' : Entry)
      → IsStable (or_default context none)
      → IsStable (or_default parameters none)
      → binding_record env binding_id context parameters instance_entry e ≡ ok e'
      → (get_string Key.binding_id e' ≡ ok (some binding_id))
        × (get_raw env Key.context e' ≡ ok (some (or_default context none)))
        × (get_raw env Key.parameters e' ≡ ok (some (or_default parameters none)))
        × ((j : String)
            → j ≢ Key.binding_id
            → j ≢ Key.context
            → j ≢ Key.parameters
            → find j e' ≡ or_else (find j instance_entry) (find j e))
  unfolding binding_record set_string
  binding_record-inherits binding_id context parameters o e e' stable_c stable_p h =
      let e0 = inherit e o in
      let e1 = put Key.binding_id binding_id e0 in
      let c = or_default context none in
      let p = or_default parameters none in
      let (e2, w2, h2) =
        >>=-eq-ok (set_raw env Key.context c e1) (λ x. set_raw env Key.parameters p x) e' h in
      let (b, encoded, wb) = find-set_raw Key.context c e1 e2 w2 in
      let (b', encoded', wb') = find-set_raw Key.parameters p e2 e' h2 in
      (
        get_string_of_find Key.binding_id binding_id e' (
            wb' Key.binding_id
            ∙ wb Key.binding_id
            ∙ find-put Key.binding_id Key.binding_id binding_id e0),
        get_raw_of_find Key.context c e' b stable_c encoded (wb' Key.context ∙ wb Key.context),
        get_raw_of_find Key.parameters p e' b' stable_p encoded' (wb' Key.parameters),
        binding_record-find binding_id context parameters o e e' h,
      )

  Records-find :
      (request : CreateServiceInstanceRequest) (e e' : Entry)
      → ((key : String) → find key e' ≡ find key e)
      → Records env request e
      → Records env request e'
  unfolding get_string get_raw get
  Records-find request e e' same records = record {
    service = ap (decoded unmarshal_string) (same Key.service_id) ∙ records.service;
    plan = ap (decoded unmarshal_string) (same Key.plan_id) ∙ records.plan;
    context =
        ap (decoded (λ b. check_valid b >>= env.raw_unmarshal_json)) (same Key.context)
        ∙ records.context;
    parameters =
        ap (decoded (λ b. check_valid b >>= env.raw_unmarshal_json)) (same Key.parameters)
        ∙ records.parameters;
  }

  -- Where the context and the parameters of a request are read back from the registry as they were
  -- written, which is not so of JSON that has spaces, an entry that is recorded of the request and
  -- committed is found again as an existing one, and it holds what a repetition of the request is
  -- compared with.
  pub new-instance_record :
      (laws : KeepsSecrets env) (namespace instance_id : String)
      (request : CreateServiceInstanceRequest) (e e1 e2 : Entry) (s s' : env.State) (ro : Bool)
      → e1.secret.name ≡ resource_name Key.service_instance instance_id
      → IsStable (or_default request.context none)
      → IsStable (or_default request.parameters none)
      → instance_record env namespace instance_id request.service_id request.plan_id request.context
          request.parameters e
        ≡ ok e1
      → commit env e1 s ≡ (ok tt, e2, s')
      → (found : Entry) × (new env Key.service_instance e1.secret.namespace instance_id ro s'
          ≡ ok found)
        × (found.exists ≡ true)
        × Records env request found
  new-instance_record laws namespace instance_id request e e1 e2 s s' ro named stable_c stable_p h
        ran =
      let (found, read, there, _, same) =
        new-commit env laws Key.service_instance instance_id ro e1 e2 s s' named ran in
      let (records, _, _) =
        instance_record-Records namespace instance_id request e e1 stable_c stable_p h in
      (found, read, there, Records-find request e1 found same records)
