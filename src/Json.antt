-- ===== src/Json.antt =====
-- JSON values, and the bytes in which the broker keeps them (encoding/json).
use native.Mathlib.Decide.{ℕ_discrete}
use service_broker_k8s.Base.{text_discrete, Option, true, false, ◌≡◌, ◌↔◌, refl, ℕ, String, Bool}
use service_broker_k8s.Errors.{Result, ok, err, other}

mutual
  -- What `json.Unmarshal` puts into an `interface{}`; a number is a float64, given by its bits.
  pub data Json : Type 0 where
    null : Json
    bool : Bool → Json
    number : ℕ → Json
    str : String → Json
    arr : Items → Json
    obj : Fields → Json

  pub data Items : Type 0 where
    nil : Items
    cons : Json → Items → Items

  -- The fields of an object in the order in which `range` visits them.
  pub data Fields : Type 0 where
    end : Fields
    field : String → Json → Fields → Fields

-- A byte string, by what it parses to. Many texts stand for one value: `spelling` numbers the ways
-- to order keys and to write numbers and texts, `layout` the ways to space them. Both are 0 in
-- what `json.Marshal` writes for a value.
pub data Bytes : Type 0 where
  text : (value : Json) (spelling layout : ℕ) → Bytes
  malformed : ℕ → Bytes

-- `json.Marshal` of an `interface{}`.
unfoldable pub marshal : Json → Bytes
marshal v = text v 0 0

-- `json.Unmarshal` into an `interface{}`.
unfoldable pub unmarshal : Bytes → Result Json
unmarshal (text v _ _) = ok v
unmarshal (malformed _) = err (other "invalid character")

-- `json.Unmarshal` into a `string`, which a JSON null leaves empty.
unfoldable pub unmarshal_string : Bytes → Result String
unmarshal_string (text (str s) _ _) = ok s
unmarshal_string (text null _ _) = ok ""
unmarshal_string (text _ _ _) = err (other "json: cannot unmarshal into Go value of type string")
unmarshal_string (malformed _) = err (other "invalid character")

-- What `json.Marshal` does to the output of a `MarshalJSON` method: it must be JSON, and is
-- written without the spaces.
unfoldable pub compact : Bytes → Result Bytes
compact (text v spelling _) = ok (text v spelling 0)
compact (malformed _) = err (other "json: error calling MarshalJSON")

-- What `json.Unmarshal` checks before it calls an `UnmarshalJSON` method.
unfoldable pub check_valid : Bytes → Result Bytes
check_valid (text v spelling layout) = ok (text v spelling layout)
check_valid (malformed _) = err (other "invalid character")

bool_discrete : Discrete Bool
bool_discrete = hlevel

unfoldable pub Raw-discrete : Discrete (Option Bytes)
unfolding text_discrete bool_discrete ℕ_discrete
Raw-discrete = hlevel (ℕ_discrete, text_discrete, bool_discrete)

unfoldable pub Json-discrete : Discrete Json
unfolding text_discrete bool_discrete ℕ_discrete
Json-discrete = hlevel (ℕ_discrete, text_discrete, bool_discrete)

abbrev decided : {P : Type 0} → Dec P → Bool
decided (yes _) = true
decided (no _) = false

decided_iff : {P : Type 0} (d : Dec P) → (decided d ≡ true) ↔ P
decided_iff (yes p) = (λ _. p, λ _. refl)
decided_iff (no np) = (λ h. cc, λ p. absurd (np p))

-- `reflect.DeepEqual` of two values of `runtime.RawExtension`, each bytes or nil.
unfoldable pub deep_equal : Option Bytes → Option Bytes → Bool
unfolding Raw-discrete
deep_equal a b = decided (Raw-discrete a b)

-- `reflect.DeepEqual` of two JSON values.
unfoldable pub json_equal : Json → Json → Bool
unfolding Json-discrete
json_equal a b = decided (Json-discrete a b)

pub json_equal_iff : (a b : Json) → (json_equal a b ≡ true) ↔ (a ≡ b)
unfolding json_equal
json_equal_iff a b = decided_iff (Json-discrete a b)

pub deep_equal_iff : (a b : Option Bytes) → (deep_equal a b ≡ true) ↔ (a ≡ b)
unfolding deep_equal
deep_equal_iff a b = decided_iff (Raw-discrete a b)
