-- ===== src/Provisioner/Template/Functions/Passwords.antt =====
-- Passwords of generatePassword (pkg/provisioners/template.go).
use service_broker_k8s.Base.{
  length-append_one, All-append_one, String, ◌^◌, leb, ◌≡◌, sym, ◌<◌, ℕ, zero, suc, ◌+◌, leb,
  length, slice_at, arith, List, [], ◌∷◌, ◌++◌, All, Option, some,
}
use service_broker_k8s.Errors.{ok_eq, fail_if, or_panic, Error, ok, >>-eq-ok, >>=-eq-ok}
use service_broker_k8s.Base.Int.{ℤ, rounds}
use service_broker_k8s.Env.{Argument, value, int}
use service_broker_k8s.Json.{null, bool, number, str, arr, obj}
use service_broker_k8s.Crypto.{Crypto}
use service_broker_k8s.Provisioner.Template.Functions.{
  letters, draw, generate_password, text_or_nil, dictionary_or_default,
}

-- The documented bound of `rand.Int`: a number below the limit.
pub record DrawsBelow (crypto : Crypto) : Type 0 where
  pub below : (c : crypto.Chance) (limit i n : ℕ) → crypto.rand_int c limit i ≡ ok n → n < limit

-- A letter that stands in the dictionary at an index other than its last.
abbrev pub IsDrawn : List ℕ → ℕ → Type 0
IsDrawn d x = (i : ℕ) × (i + 1 < length d) × (slice_at d i ≡ some x)

same_text :
    (x : Argument) (e e' : Error) (a b : Option String)
    → text_or_nil x e ≡ ok a
    → text_or_nil x e' ≡ ok b
    → a ≡ b
same_text (value null) e e' a b h k = cc
same_text (value (str s)) e e' a b h k = cc
same_text (value (bool x)) e e' a b h k = cc
same_text (value (number x)) e e' a b h k = cc
same_text (value (arr x)) e e' a b h k = cc
same_text (value (obj x)) e e' a b h k = cc
same_text (int n) e e' a b h k = cc

-- A list of `n` letters, each drawn from the dictionary.
pub record IsPassword (d : List ℕ) (n : ℕ) (text : List ℕ) : Type 0 where
  pub long : length text ≡ n
  pub drawn : All (IsDrawn d) text

module _ (crypto : Crypto) (laws : DrawsBelow crypto) where
  draw-lt : (c : crypto.Chance) (n i index : ℕ) → draw crypto c n i ≡ ok index → index + 1 < n
  draw-lt c zero i index h = cc
  draw-lt c (suc zero) i index h = cc
  draw-lt c (suc (suc n)) i index h = omega (arith, laws.below c (suc n) i index h)

  letters_lem :
      (c : crypto.Chance) (d : List ℕ) (i left : ℕ) (text text' : List ℕ)
      → All (IsDrawn d) text
      → letters crypto c d i left text ≡ ok text'
      → (length text' ≡ length text + left) × All (IsDrawn d) text'
  unfolding letters
  letters_lem c d i zero text text' drawn h = (ground arith, ground arith)
  letters_lem c d i (suc left) text text' drawn h =
      let (index, h1, rest) = >>=-eq-ok (draw crypto c (length d) i) _ text' h in
      let (_, rest') = >>-eq-ok (fail_if (leb (2 ^ 63) index) _) _ rest in
      let (letter, found, more) = >>=-eq-ok (or_panic (slice_at d index)) _ text' rest' in
      let (long, all) =
        letters_lem c d (i + 1) left (text ++ letter ∷ []) text'
          (All-append_one (IsDrawn d) text letter drawn
            (index, draw-lt c (length d) i index h1, ground (arith, found)))
          more in
      (omega (arith, long, length-append_one text letter), all)

  -- A password that is generated has as many letters as it was asked for, and each of them stands in
  -- the dictionary, that which is given or the one of letters and digits, at an index before the last:
  -- the letter at the last index is never drawn from there.
  pub generate_password-IsPassword :
      (c : crypto.Chance) (n : ℤ) (dictionary : Argument) (given : Option String) (e : Error)
      (s : String)
      → text_or_nil dictionary e ≡ ok given
      → generate_password crypto c n dictionary ≡ ok s
      → (text : List ℕ) × (s ≡ crypto.of_utf8 text)
        × IsPassword (crypto.utf8 (dictionary_or_default given)) (rounds n) text
  unfolding generate_password
  generate_password-IsPassword c n dictionary given e s typed h =
      let (given', read, rest) = >>=-eq-ok (text_or_nil dictionary _) _ s h in
      let same : given' ≡ given = same_text dictionary _ e given' given read typed in
      let (text, made, written) =
        >>=-eq-ok (letters crypto c (crypto.utf8 (dictionary_or_default given')) 0 (rounds n) []) _
          s rest in
      let (long, all) =
        letters_lem c (crypto.utf8 (dictionary_or_default given')) 0 (rounds n) [] text tt made in
      (text, sym (ok_eq written), rw (← same) (record { long = omega (arith, long); drawn = all }))
