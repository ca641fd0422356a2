-- ===== src/Base.antt =====
-- The names that the other modules share: library names passed on, and Boolean tests.
pub mod Dict
pub mod Int
pub mod Text
pub use Prim.Native.Nat.{ℕ, zero, suc, ◌+◌, ◌-◌, ◌^◌, ◌≤◌, ◌<◌}
pub use Prim.Native.String.{String}
pub use mathlib.Core.Path.{◌≡◌, refl, sym, ap, ◌∙◌}
pub use mathlib.Core.Logic.{◌≢◌, ◌↔◌, ◌⊎◌, inl, inr}
pub use mathlib.Core.Bool.{Bool, true, false, not, ◌&&◌, ◌||◌}
pub use mathlib.Core.Option.{Option, none, some}
pub use mathlib.Core.List.{List, [], ◌∷◌, ◌++◌, map}
pub use native.Mathlib.Omega.{arith}
pub use text.Mathlib.Text.{◌==◌}
pub use text.Mathlib.TextEquality.{eq_iff}
pub use text.Mathlib.TextPositions.{eq_refl}
use Prim.Native.String
use Prim.Native.Nat.{compare, Ordering}

infix 1 if◌then◌else◌
abbrev pub if◌then◌else◌ {ℓ} : {A : Type ℓ} → Bool → A → A → A
if true then x else _ = x
if false then _ else y = y

pub Bool-cases : (b : Bool) → (b ≡ true) ⊎ (b ≡ false)
Bool-cases true = inl refl
Bool-cases false = inr refl

module _ {ℓ} {A : Type ℓ} where
  pub Option-cases : (o : Option A) → (o ≡ none) ⊎ ((a : A) × (o ≡ some a))
  Option-cases none = inl refl
  Option-cases (some a) = inr (a, refl)

  -- `x != nil`
  abbrev pub is_some : Option A → Bool
  is_some none = false
  is_some (some _) = true

  -- `len(xs) == 0`
  abbrev pub is_empty : List A → Bool
  is_empty [] = true
  is_empty (_ ∷ _) = false

  -- A pointer that stands for a default where it is nil.
  abbrev pub or_default : Option A → A → A
  or_default none d = d
  or_default (some a) _ = a

module _ {ℓ} {A : Type ℓ} where
  abbrev pub length : List A → ℕ
  length [] = 0
  length (_ ∷ xs) = suc (length xs)

  -- `xs[i : i+1]`, its one element.
  abbrev pub slice_at : List A → ℕ → Option A
  slice_at [] _ = none
  slice_at (x ∷ _) zero = some x
  slice_at (_ ∷ xs) (suc i) = slice_at xs i

module _ {ℓ κ} {A : Type ℓ} (P : A → Type κ) where
  abbrev pub All : List A → Type κ
  All [] = Unit
  All (x ∷ xs) = P x × All xs

module _ {ℓ κ} {A : Type ℓ} (P : A → Type κ) where
  pub All-append_one : (xs : List A) (x : A) → All P xs → P x → All P (xs ++ x ∷ [])
  All-append_one [] x h p = (p, tt)
  All-append_one (y ∷ xs) x (h, hs) p = (h, All-append_one xs x hs p)

pub length-append_one {ℓ} :
    {A : Type ℓ} (xs : List A) (x : A) → length (xs ++ x ∷ []) ≡ length xs + 1
length-append_one [] x = omega arith
length-append_one (y ∷ xs) x = omega (arith, length-append_one xs x)

-- `a == b` on numbers.
abbrev pub nat_eq : ℕ → ℕ → Bool
nat_eq a b = elim (compare a b) [ Ordering.eq ↦ true | _ ↦ false ]

abbrev pub leb : ℕ → ℕ → Bool
leb a b = elim (compare a b) [ Ordering.gt ↦ false | _ ↦ true ]

-- `fmt.Sprintf`, its text and its arguments in the order in which they appear.
unfoldable pub sprintf : List String → String
sprintf [] = ""
sprintf (s ∷ ss) = String.◌++◌ s (sprintf ss)

-- Texts that are equal test as equal, and the other way round.
pub eq_of_test : {s t : String} → (s == t) ≡ true → s ≡ t
eq_of_test {s} {t} h = (eq_iff s t).0 h

pub ne_of_test : {s t : String} → (s == t) ≡ false → s ≢ t
ne_of_test {s} {t} h e = ground (arith, (eq_iff s t).1 e)

pub test_of_ne : {s t : String} → s ≢ t → (s == t) ≡ false
test_of_ne {s} {t} h = ground (arith, eq_iff s t)

decide_text : (s t : String) (b : Bool) → (s == t) ≡ b → Dec (s ≡ t)
decide_text s t true h = yes (eq_of_test h)
decide_text s t false h = no (ne_of_test h)

unfoldable pub text_discrete : Discrete String
unfolding decide_text
text_discrete s t = decide_text s t (s == t) refl
