-- ===== src/Registry/Values.antt =====
-- What a read of a registry entry returns after each of the writes.
use service_broker_k8s.Base.{
  String, ◌≡◌, refl, none, some, arith, ◌==◌, if◌then◌else◌, Bool-cases, Option-cases, inl, inr,
}
use service_broker_k8s.Base.Dict.{
  insert, lookup, lookup-insert, lookup-remove, or_else, lookup-merge,
}
use service_broker_k8s.Errors.{Result, ok}
use service_broker_k8s.Json.{str, Bytes, unmarshal_string, marshal}
use service_broker_k8s.Registry.{
  Entry, find, get, get_string, set, set_string, unset, inherit, clone, decoded, data_or_empty,
  with_data,
}

find_lem : (j : String) (e : Entry) → find j e ≡ lookup j (data_or_empty e.secret.data_map)
unfolding find lookup
find_lem j e = ground arith

-- A read after an update of the table, at the level of the bytes.
pub find-set :
    (k j : String) (b : Bytes) (e e' : Entry)
    → set k (ok b) e ≡ ok e'
    → find j e' ≡ (if k == j then some b else find j e)
unfolding find set
find-set k j b e e' h =
    ground (arith, lookup-insert k j b (data_or_empty e.secret.data_map), find_lem j e)

pub find-unset :
    (k j : String) (e : Entry) → find j (unset k e) ≡ (if k == j then none else find j e)
unfolding find unset
find-unset k j e = elim (Option-cases e.secret.data_map) [
  | inl nil ↦ ground arith
  | inr (d, held) ↦ ground (arith, lookup-remove k j d)
]

-- An entry that inherits has the other's value of each key that the other has, and its own value
-- of every other key.
pub find-inherit : (j : String) (e o : Entry) → find j (inherit e o) ≡ or_else (find j o) (find j e)
unfolding find inherit
find-inherit j e o = elim (Option-cases o.secret.data_map) [
  | inl nil ↦ ground arith
  | inr (src, held) ↦
      ground (arith, lookup-merge j src (data_or_empty e.secret.data_map), find_lem j e)
]

pub find-clone : (j : String) (e : Entry) → find j (clone e) ≡ find j e
unfolding find clone
find-clone j e = refl

pub get-set {ℓ} :
    {A : Type ℓ} (decode : Bytes → Result A) (k j : String) (b : Bytes) (e e' : Entry)
    → set k (ok b) e ≡ ok e'
    → get decode j e' ≡ (if k == j then decoded decode (some b) else get decode j e)
unfolding get
get-set decode k j b e e' h = elim (Bool-cases (k == j)) [
  | inl same ↦ rw (find-set k j b e e' h, same)
  | inr other_key ↦ rw (find-set k j b e e' h, other_key)
]

-- A text that is written is read back, and no other key changes.
pub get_string-set_string :
    (k j s : String) (e e' : Entry)
    → set_string k s e ≡ ok e'
    → get_string j e' ≡ (if k == j then ok (some s) else get_string j e)
unfolding get_string set_string
get_string-set_string k j s e e' h = get-set unmarshal_string k j (marshal (str s)) e e' h

-- The entry after `set_string`, which cannot fail.
abbrev pub put : String → String → Entry → Entry
put k s e = with_data e (insert k (marshal (str s)) (data_or_empty e.secret.data_map))

pub set_string_total : (k s : String) (e : Entry) → set_string k s e ≡ ok (put k s e)
unfolding set_string
set_string_total k s e = refl

pub get_string-put :
    (k j s : String) (e : Entry)
    → get_string j (put k s e) ≡ (if k == j then ok (some s) else get_string j e)
get_string-put k j s e = get_string-set_string k j s e (put k s e) (set_string_total k s e)

pub get_string-unset :
    (k j : String) (e : Entry)
    → get_string j (unset k e) ≡ (if k == j then ok none else get_string j e)
unfolding get_string
get_string-unset k j e = ground (arith, find-unset k j e)
