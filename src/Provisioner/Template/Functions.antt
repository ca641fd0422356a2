-- ===== src/Provisioner/Template/Functions.antt =====
-- The template functions of pkg/provisioners/template.go that generate values, and those on texts.
pub mod Passwords
use service_broker_k8s.Base.{
  ℕ, zero, suc, ◌+◌, ◌-◌, ◌^◌, leb, length, slice_at, String, Bool, true, false, Option, none, some,
  List, [], ◌∷◌, ◌++◌, if◌then◌else◌,
}
use service_broker_k8s.Base.Int.{ℤ, pos, negsuc, rounds}
use service_broker_k8s.Errors.{
  Error, Result, ok, err, panic, configuration_error, fail_if, or_panic, ◌>>=◌, ◌>>◌,
}
use service_broker_k8s.Json.{Json, null, str, marshal}
use service_broker_k8s.Crypto.{Crypto}
use service_broker_k8s.Env.{Env, Argument, value, int}
use service_broker_k8s.X509.{generate_key}
use service_broker_k8s.X509.Certificates.{generate_certificate}

-- `typed, ok := x.(string)` of a value that may be nil.
abbrev pub text_or_nil : Argument → Error → Result (Option String)
text_or_nil (value null) e = ok none
text_or_nil (value (str s)) e = ok (some s)
text_or_nil _ e = err e

-- `x.(int)` of a value that may be nil: a number of JSON is not an int.
abbrev pub int_or_nil : Argument → Error → Result (Option ℤ)
int_or_nil (value null) e = ok none
int_or_nil (int n) e = ok (some n)
int_or_nil _ e = err e

-- `san.(string)` of each value.
abbrev pub texts_of : (Argument → Error) → List Argument → Result (List String)
texts_of e [] = ok []
texts_of e (value (str s) ∷ more) = do rest ← texts_of e more; ok (s ∷ rest)
texts_of e (x ∷ more) = err (e x)

abbrev pub default_dictionary : String
default_dictionary = "abcdefghijklmnopqrstuvwxyzABCDEFGHIJKLMNOPQRSTUVWXYZ0123456789"

abbrev pub dictionary_or_default : Option String → String
dictionary_or_default none = default_dictionary
dictionary_or_default (some d) = d

module _ (crypto : Crypto) where
  open crypto use {Chance, rand_int, petname_generate, utf8, of_utf8, parse_duration}

  -- `rand.Int(rand.Reader, limit)` with a limit of one less than the length: it panics at a limit
  -- that is not above 0.
  abbrev pub draw : Chance → (dictionary_length i : ℕ) → Result ℕ
  draw c (suc (suc n)) i = rand_int c (suc n) i
  draw c _ i = panic

  -- The loop over the letters, from the i-th one; `d[index : index+1]` panics out of range.
  unfoldable pub letters : Chance → List ℕ → (i left : ℕ) → (text : List ℕ) → Result (List ℕ)
  letters c d i zero text = ok text
  letters c d i (suc left) text = do
    index ← draw c (length d) i
    fail_if (leb (2 ^ 63) index) (configuration_error "random index overflow")
    letter ← or_panic (slice_at d index)
    letters c d (i + 1) left (text ++ letter ∷ [])

  -- `templateFunctionGeneratePassword`
  unfoldable pub generate_password : Chance → ℤ → Argument → Result String
  unfolding letters
  generate_password c n dictionary = do
    typed ← text_or_nil dictionary (configuration_error "password dictionary not a string")
    text ← letters c (utf8 (dictionary_or_default typed)) 0 (rounds n) []
    ok (of_utf8 text)

  -- `templateFunctionGeneratePetName`
  unfoldable pub generate_pet_name : Chance → ℤ → Result String
  generate_pet_name c (pos (suc n)) = ok (petname_generate c (suc n) "-")
  generate_pet_name c _ = err (configuration_error "petNames: minimum numbers of words is 1")

  -- `templateFunctionGeneratePrivatekey`
  unfoldable pub generate_private_key : Chance → (t encoding : String) → Argument → Result String
  unfolding generate_key
  generate_private_key c t encoding bits = do
    n ← int_or_nil bits (configuration_error "bits is not an integer")
    generate_key crypto c t encoding n

  -- `templateFunctionGenerateCertificate`; `san_error` is the error of a name that is no text.
  unfoldable pub template_certificate :
      (san_error : Argument → Error)
      → Chance
      → (key cn lifetime usage : String) → (sans : List Argument) → (ca_key ca_cert : Argument)
      → Result String
  unfolding generate_certificate
  template_certificate san_error c key cn lifetime usage sans ca_key ca_cert = do
    duration ← parse_duration lifetime
    ca_key' ← text_or_nil ca_key (configuration_error "CA key not a string")
    ca_cert' ← text_or_nil ca_cert (configuration_error "CA certificate not a string")
    sans' ← texts_of san_error sans
    generate_certificate crypto c key cn duration usage sans' ca_key' ca_cert'
