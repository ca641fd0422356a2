-- ===== src/Base/Dict.antt =====
-- A Go map with text keys, as an association list. A write to a key that is there replaces the
-- value in place; `delete` removes every pair of the key.
use Prim.Native.String.{String}
use mathlib.Core.Path.{◌≡◌, refl}
use mathlib.Core.Logic.{◌≢◌}
use mathlib.Core.Bool.{cond}
use mathlib.Core.Option.{Option, none, some}
use mathlib.Core.List.{List, [], ◌∷◌}
use native.Mathlib.Omega.{arith}
use text.Mathlib.Text.{◌==◌}
use text.Mathlib.TextEquality.{eq_iff}
use text.Mathlib.TextPositions.{eq_refl}

abbrev pub Dict {ℓ} : Type ℓ → Type ℓ
Dict V = List (String × V)

module _ {ℓ} {V : Type ℓ} where
  unfoldable pub lookup : String → Dict V → Option V
  lookup k [] = none
  lookup k ((j, v) ∷ d) = cond (j == k) (some v) (lookup k d)

  unfoldable pub insert : String → V → Dict V → Dict V
  insert k v [] = (k, v) ∷ []
  insert k v ((j, w) ∷ d) = cond (j == k) ((j, v) ∷ d) ((j, w) ∷ insert k v d)

  unfoldable pub remove : String → Dict V → Dict V
  remove k [] = []
  remove k ((j, v) ∷ d) = let rest = remove k d in cond (j == k) rest ((j, v) ∷ rest)

  -- `for k, v := range src { dst[k] = v }`; the order of `range` is from the end of the list.
  unfoldable pub merge : Dict V → Dict V → Dict V
  merge [] dst = dst
  merge ((k, v) ∷ src) dst = insert k v (merge src dst)

  pub lookup-insert :
      (k j : String) (v : V) (d : Dict V)
      → lookup j (insert k v d) ≡ cond (k == j) (some v) (lookup j d)
  unfolding lookup insert
  lookup-insert k j v [] = refl
  lookup-insert k j v ((i, w) ∷ d) =
      ground (arith, eq_iff k j, eq_iff i k, eq_iff i j, lookup-insert k j v d)

  pub lookup-remove :
      (k j : String) (d : Dict V) → lookup j (remove k d) ≡ cond (k == j) none (lookup j d)
  unfolding lookup remove
  lookup-remove k j [] = ground arith
  lookup-remove k j ((i, w) ∷ d) =
      ground (arith, eq_iff k j, eq_iff i k, eq_iff i j, lookup-remove k j d)

  pub lookup-insert_self : (k : String) (v : V) (d : Dict V) → lookup k (insert k v d) ≡ some v
  lookup-insert_self k v d = ground (arith, lookup-insert k k v d, eq_refl k)

  pub lookup-insert_ne :
      (k j : String) (v : V) (d : Dict V) → k ≢ j → lookup j (insert k v d) ≡ lookup j d
  lookup-insert_ne k j v d h = ground (arith, lookup-insert k j v d, eq_iff k j)

  pub lookup-remove_ne : (k j : String) (d : Dict V) → k ≢ j → lookup j (remove k d) ≡ lookup j d
  lookup-remove_ne k j d h = ground (arith, lookup-remove k j d, eq_iff k j)

  -- The value of the first option that has one.
  abbrev pub or_else : Option V → Option V → Option V
  or_else none y = y
  or_else (some v) _ = some v

  pub lookup-merge :
      (j : String) (src dst : Dict V)
      → lookup j (merge src dst) ≡ or_else (lookup j src) (lookup j dst)
  unfolding merge lookup
  lookup-merge j [] dst = refl
  lookup-merge j ((k, v) ∷ src) dst =
      ground (arith, lookup-insert k j v (merge src dst), lookup-merge j src dst)
