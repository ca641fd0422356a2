-- ===== src/Base/Text.antt =====
-- `strings.EqualFold`, and the other functions on texts that the broker takes from `strings`.
use Prim.Native.Nat.{ℕ, ◌+◌, compare, Ordering}
use Prim.Native.Char.{code}
use Prim.Native.String
use Prim.Native.String.{String}
use mathlib.Core.Bool.{Bool, true, false, cond, ◌&&◌}
use mathlib.Core.List.{List, [], ◌∷◌, reverse}

abbrev leb : ℕ → ℕ → Bool
leb a b = elim (compare a b) [ Ordering.gt ↦ false | _ ↦ true ]

abbrev eqb : ℕ → ℕ → Bool
eqb a b = elim (compare a b) [ Ordering.eq ↦ true | _ ↦ false ]

-- The code points of a text.
unfoldable pub codes : String → List ℕ
codes String.[] = []
codes (String.◌∷◌ c s) = code c ∷ codes s

-- The lower case of a letter of ASCII.
unfoldable pub to_lower : ℕ → ℕ
to_lower c = cond (leb b'A' c && leb c b'Z') (c + 32) c

-- The letter of ASCII that a code point folds to: U+017F folds to s and U+212A to k.
unfoldable pub fold_code : ℕ → ℕ
unfolding to_lower
fold_code c = cond (eqb c 0x17f) b's' (cond (eqb c 0x212a) b'k' (to_lower c))

equal_codes : List ℕ → List ℕ → Bool
equal_codes [] [] = true
equal_codes (c ∷ cs) (d ∷ ds) = eqb (fold_code c) (fold_code d) && equal_codes cs ds
equal_codes _ _ = false

-- `strings.EqualFold`, where one of the two texts is ASCII.
unfoldable pub equal_fold : String → String → Bool
unfolding codes fold_code equal_codes
equal_fold s t = equal_codes (codes s) (codes t)

holds_percent : List ℕ → Bool
holds_percent [] = false
holds_percent (c ∷ cs) = cond (eqb c b'%') true (holds_percent cs)

-- Whether a text has a `%`.
unfoldable pub has_percent : String → Bool
unfolding codes holds_percent
has_percent s = holds_percent (codes s)

-- Whether the second list begins the first.
begins : List ℕ → List ℕ → Bool
begins _ [] = true
begins [] (_ ∷ _) = false
begins (c ∷ cs) (d ∷ ds) = eqb c d && begins cs ds

-- `strings.HasPrefix`
unfoldable pub starts_with : String → String → Bool
unfolding codes begins
starts_with s prefix = begins (codes s) (codes prefix)

-- `strings.HasSuffix`
unfoldable pub ends_with : String → String → Bool
unfolding codes begins
ends_with s suffix = begins (reverse (codes s)) (reverse (codes suffix))

lower_codes_equal : List ℕ → List ℕ → Bool
lower_codes_equal [] [] = true
lower_codes_equal (c ∷ cs) (d ∷ ds) = eqb (to_lower c) d && lower_codes_equal cs ds
lower_codes_equal _ _ = false

-- `strings.ToLower(s) == t`, where `t` is of small letters of ASCII.
unfoldable pub lower_equal : String → String → Bool
unfolding codes to_lower lower_codes_equal
lower_equal s t = lower_codes_equal (codes s) (codes t)

-- `strings.Split` at a character, with the part that is being read.
unfoldable pub split_from : (separator : ℕ) → String → String → List String
split_from separator part String.[] = part ∷ []
split_from separator part (String.◌∷◌ c s) =
    let closed = part ∷ split_from separator "" s in
    let longer = split_from separator (String.◌++◌ part (String.◌∷◌ c String.[])) s in
    cond (eqb (code c) separator) closed longer

unfoldable pub split_spaces : String → List String
unfolding split_from
split_spaces s = split_from b' ' "" s

unfoldable pub split_colons : String → List String
unfolding split_from
split_colons s = split_from b':' "" s
