-- ===== src/Registry/Permissions.antt =====
-- Which keys of a registry entry a template may read and write (`GetUser`, `SetUser`).
use service_broker_k8s.Base.{
  String, ◌≡◌, ◌≢◌, ◌⊎◌, ◌↔◌, refl, true, false, some, List, [], ◌∷◌, arith, ◌==◌, eq_iff,
  Bool-cases, Option-cases, All, eq_of_test, inl, inr, sprintf, ap,
}
use service_broker_k8s.Base.Dict.{lookup-insert_self}
use service_broker_k8s.Errors.{ok, err, configuration_error}
use service_broker_k8s.Json.{text, malformed, Json, marshal, unmarshal}
use mathlib.Core.Path.{subst}
use service_broker_k8s.Registry.{
  KeyPolicy, key_policies, find_key_policy, Entry, find, get, set, set_user, get_user,
  is_key_readable, is_key_writable,
}
use service_broker_k8s.Registry.Key
use service_broker_k8s.Registry.Values.{find-set}

-- The keys that hold the broker's own record of a request or an operation.
abbrev pub IsHidden : String → Type 0
IsHidden k =
    (k ≡ Key.context)
    ⊎ (k ≡ Key.parameters)
    ⊎ (k ≡ Key.operation)
    ⊎ (k ≡ Key.operation_id)
    ⊎ (k ≡ Key.operation_status)

-- The keys that identify the instance.
abbrev pub IsIdentity : String → Type 0
IsIdentity k =
    (k ≡ Key.namespace) ⊎ (k ≡ Key.instance_id) ⊎ (k ≡ Key.service_id) ⊎ (k ≡ Key.plan_id)

-- A policy that is found is one of the list, and has the name that was looked for.
find_key_policy-All :
    (P : KeyPolicy → Type 0) (k : String) (ps : List KeyPolicy) (p : KeyPolicy)
    → All P ps
    → find_key_policy k ps ≡ some p
    → P p × (p.name ≡ k)
unfolding find_key_policy
find_key_policy-All P k [] p h e = cc
find_key_policy-All P k (q ∷ ps) p (here, later) e = elim (Bool-cases (q.name == k)) [
  | inl same ↦
      let found : q ≡ p = ground (arith, same, e) in
      subst (λ r. P r × (r.name ≡ k)) found (here, eq_of_test same)
  | inr other_name ↦ find_key_policy-All P k ps p later (rw other_name at e)
]

abbrev ReadsOrHides : KeyPolicy → Type 0
ReadsOrHides p = (p.read ≡ true) ⊎ IsHidden p.name

abbrev WritesOrProtects : KeyPolicy → Type 0
WritesOrProtects p = (p.write ≡ true) ⊎ (IsHidden p.name ⊎ IsIdentity p.name)

policies-ReadsOrHides : All ReadsOrHides key_policies
unfolding key_policies
policies-ReadsOrHides = ground arith

policies-WritesOrProtects : All WritesOrProtects key_policies
unfolding key_policies
policies-WritesOrProtects = ground arith

readable_sound : (k : String) → is_key_readable k ≡ false → IsHidden k
unfolding is_key_readable
readable_sound k h = elim (Option-cases (find_key_policy k key_policies)) [
  | inl absent ↦ ground arith
  | inr (p, found) ↦
      let (which, named) =
        find_key_policy-All ReadsOrHides k key_policies p policies-ReadsOrHides found in
      subst IsHidden named (elim which [ inl reads ↦ ground arith | inr hides ↦ hides ])
]

writable_sound : (k : String) → is_key_writable k ≡ false → IsHidden k ⊎ IsIdentity k
unfolding is_key_writable
writable_sound k h = elim (Option-cases (find_key_policy k key_policies)) [
  | inl absent ↦ ground arith
  | inr (p, found) ↦
      let (which, named) =
        find_key_policy-All WritesOrProtects k key_policies p policies-WritesOrProtects found in
      subst (λ n. IsHidden n ⊎ IsIdentity n) named
        (elim which [ inl writes ↦ ground arith | inr protects ↦ protects ])
]

hidden_unreadable : (k : String) → IsHidden k → is_key_readable k ≡ false
unfolding is_key_readable key_policies find_key_policy
hidden_unreadable k (inl e) = rw e
hidden_unreadable k (inr (inl e)) = rw e
hidden_unreadable k (inr (inr (inl e))) = rw e
hidden_unreadable k (inr (inr (inr (inl e)))) = rw e
hidden_unreadable k (inr (inr (inr (inr e)))) = rw e

hidden_unwritable : (k : String) → IsHidden k → is_key_writable k ≡ false
unfolding is_key_writable key_policies find_key_policy
hidden_unwritable k (inl e) = rw e
hidden_unwritable k (inr (inl e)) = rw e
hidden_unwritable k (inr (inr (inl e))) = rw e
hidden_unwritable k (inr (inr (inr (inl e)))) = rw e
hidden_unwritable k (inr (inr (inr (inr e)))) = rw e

identity_unwritable : (k : String) → IsIdentity k → is_key_writable k ≡ false
unfolding is_key_writable key_policies find_key_policy
identity_unwritable k (inl e) = rw e
identity_unwritable k (inr (inl e)) = rw e
identity_unwritable k (inr (inr (inl e))) = rw e
identity_unwritable k (inr (inr (inr e))) = rw e

-- An unguarded read fails with no configuration error.
get_no_configuration_error :
    (k s : String) (e : Entry) → get unmarshal k e ≢ err (configuration_error s)
unfolding get unmarshal
get_no_configuration_error k s e h = elim (Option-cases (find k e)) [
  | inl nil ↦ absurd (ground (arith, nil))
  | inr (text v x y, held) ↦ absurd (ground (arith, held))
  | inr (malformed n, held) ↦ absurd (ground (arith, held))
]

-- A template's read of a key is refused exactly when the key is one of the five that hold the
-- request and the operation.
pub get_user_iff :
    (k : String) (e : Entry)
    → (get_user k e
        ≡ err (configuration_error (sprintf ("registry key " ∷ k ∷ " cannot be read" ∷ []))))
      ↔ IsHidden k
unfolding get_user
get_user_iff k e = (
  λ h. elim (Bool-cases (is_key_readable k)) [
    | inl reads ↦ absurd (get_no_configuration_error k _ e (rw reads at h))
    | inr refused ↦ readable_sound k refused
  ],
  λ h. rw (hidden_unreadable k h),
)

-- A template's write that succeeds changes neither the keys that hold the request and the operation
-- nor those that identify the instance, and one of such a key is refused.
pub set_user-protects :
    (key j : String) (value : Json) (e e' : Entry)
    → set_user key value e ≡ ok e'
    → IsHidden j ⊎ IsIdentity j
    → (find j e' ≡ find j e) × (key ≢ j)
unfolding set_user
set_user-protects key j value e e' h protected = elim (Bool-cases (is_key_writable key)) [
  | inl writes ↦
      let apart : key ≢ j = λ same. elim protected [
        | inl hides ↦ cc (hidden_unwritable j hides, ap is_key_writable same, writes)
        | inr names ↦ cc (identity_unwritable j names, ap is_key_writable same, writes)
      ] in
      (ground (arith, find-set key j (marshal value) e e', eq_iff key j), apart)
  | inr refused ↦ ground arith
]

-- A template may overwrite `binding-id`, which no policy lists, with any value.
pub set_user-binding_id :
    (value : Json) (e : Entry)
    → (e' : Entry) × (set_user Key.binding_id value e ≡ ok e')
      × (find Key.binding_id e' ≡ some (marshal value))
unfolding set_user set find key_policies find_key_policy is_key_writable
set_user-binding_id value e = (_, refl, lookup-insert_self Key.binding_id (marshal value) _)
