-- ===== src/Config/Interpolate.antt =====
-- config.go: `interpolateEnv` on texts with variables.
use Prim.Native.Char.{Char, code}
use text.Mathlib.TextLemmas.{cons-append, nil-append}
use uploadfun.Base.{
  ℕ, suc, ◌+◌, ◌≡◌, refl, ◌∙◌, ap, String, ◌<>◌, Bool, true, not, ◌&&◌, ◌||◌, List, [], ◌∷◌, All,
  none, some, arith, nat_eq,
}
use uploadfun.Config.Env.{
  Surroundings, is_letter, is_digit, name_part, starts_with_letter, after_char, closed_name,
  match_variable, string_length, replacement, missing_if_unset, replace_variables, interpolate_env,
}

-- A text that is taken as it is, or a variable with its value.
pub data Piece : Type 0 where
  plain : String → Piece
  variable : (name value : String) → Piece

-- The pieces as they are written in the configuration.
unfoldable pub written : List Piece → String
written [] = ""
written (plain t ∷ pieces) = t <> written pieces
written (variable name value ∷ pieces) = "${" <> (name <> ("}" <> written pieces))

-- The text that they stand for.
unfoldable pub meant : List Piece → String
meant [] = ""
meant (plain t ∷ pieces) = t <> meant pieces
meant (variable name value ∷ pieces) = value <> meant pieces

unfoldable pub has_no_dollar : String → Bool
has_no_dollar String.[] = true
has_no_dollar (String.◌∷◌ c s) = not (nat_eq (code c) b'$') && has_no_dollar s

unfoldable pub has_name_characters : String → Bool
has_name_characters String.[] = true
has_name_characters (String.◌∷◌ c s) =
    (is_letter (code c) || is_digit (code c)) && has_name_characters s

-- The variable is written as one, and set to the value.
abbrev pub IsWritable : Surroundings → Piece → Type 0
IsWritable around (plain t) = has_no_dollar t ≡ true
IsWritable around (variable name value) =
    (starts_with_letter name ≡ true)
    × (has_name_characters name ≡ true)
    × (around.lookup_env name ≡ some value)

open-append : (s : String) → "${" <> s ≡ String.◌∷◌ "$" (String.◌∷◌ "{" s)
open-append s = rw (cons-append, cons-append, nil-append) refl

close-append : (s : String) → "}" <> s ≡ String.◌∷◌ "}" s
close-append s = rw (cons-append, nil-append) refl

name_part-close : (rest : String) → name_part ("}" <> rest) ≡ ("", "}" <> rest)
unfolding name_part
name_part-close rest = rw close-append refl

name_part-append :
    (name rest : String)
    → has_name_characters name ≡ true
    → name_part (name <> ("}" <> rest)) ≡ (name, "}" <> rest)
unfolding has_name_characters name_part
name_part-append String.[] rest h = rw nil-append (name_part-close rest)
name_part-append (String.◌∷◌ c s) rest h =
    rw cons-append (ground (arith, h, name_part-append s rest))

module _ (around : Surroundings) where
  replace_variables-skip :
      (skipped rest : String) (more : ℕ)
      → replace_variables around (string_length skipped + more) (skipped <> rest)
        ≡ replace_variables around more rest
  unfolding replace_variables string_length
  replace_variables-skip String.[] rest more =
      rw nil-append (ap (λ k. replace_variables around k rest) (omega arith))
  replace_variables-skip (String.◌∷◌ c s) rest more =
      let counted : suc (string_length s) + more ≡ suc (string_length s + more) = omega arith in
      rw cons-append (rw counted (replace_variables-skip s rest more))

  replace_variables-text :
      (t rest : String)
      → has_no_dollar t ≡ true
      → let (r, missing) = replace_variables around 0 rest in
        replace_variables around 0 (t <> rest) ≡ (t <> r, missing)
  unfolding has_no_dollar replace_variables match_variable after_char
  replace_variables-text String.[] rest h = rw nil-append (rw nil-append refl)
  replace_variables-text (String.◌∷◌ c s) rest h = rw cons-append (
      ground (
        arith,
        h,
        replace_variables-text s rest,
        cons-append c s (replace_variables around 0 rest).0,
      ))

  match_variable-append :
      (name rest : String)
      → starts_with_letter name ≡ true
      → has_name_characters name ≡ true
      → match_variable ("${" <> (name <> ("}" <> rest))) ≡ some name
  unfolding match_variable after_char closed_name
  match_variable-append name rest letter h =
      rw (open-append, name_part-append name rest h, close-append) (ground (arith, letter))

  replace_variables-matched :
      (c : Char) (s name : String)
      → match_variable (String.◌∷◌ c s) ≡ some name
      → let (r, missing) = replace_variables around (string_length name + 2) s in
        replace_variables around 0 (String.◌∷◌ c s)
        ≡ (replacement around name <> r, missing_if_unset around name missing)
  unfolding replace_variables
  replace_variables-matched c s name h = ground (arith, h)

  -- The characters of a match that are left when its first is taken.
  replace_variables-rest :
      (name rest : String)
      → replace_variables around (string_length name + 2) (String.◌∷◌ "{" (name <> ("}" <> rest)))
        ≡ replace_variables around 0 rest
  unfolding replace_variables
  replace_variables-rest name rest =
      let counted : string_length name + 2 ≡ suc (string_length name + 1) = omega arith in
      rw counted (replace_variables-skip name ("}" <> rest) 1 ∙ rw close-append refl)

  replace_variables-variable :
      (name value rest : String)
      → starts_with_letter name ≡ true
      → has_name_characters name ≡ true
      → around.lookup_env name ≡ some value
      → let (r, missing) = replace_variables around 0 rest in
        replace_variables around 0 ("${" <> (name <> ("}" <> rest))) ≡ (value <> r, missing)
  unfolding replacement missing_if_unset
  replace_variables-variable name value rest letter h set =
      let found = match_variable-append name rest letter h in
      rw open-append (
        replace_variables-matched "$" (String.◌∷◌ "{" (name <> ("}" <> rest))) name
          (rw open-append at found)
        ∙ rw (replace_variables-rest name rest) (ground (arith, set)))

  replace_variables-nil : replace_variables around 0 "" ≡ ("", [])
  unfolding replace_variables
  replace_variables-nil = refl

  replace_variables-written :
      (pieces : List Piece)
      → All (IsWritable around) pieces
      → replace_variables around 0 (written pieces) ≡ (meant pieces, [])
  unfolding written meant
  replace_variables-written [] h = replace_variables-nil
  replace_variables-written (plain t ∷ pieces) (h, hs) =
      replace_variables-text t (written pieces) h ∙ rw (replace_variables-written pieces hs) refl
  replace_variables-written (variable name value ∷ pieces) ((letter, chars, set), hs) =
      replace_variables-variable name value (written pieces) letter chars set
      ∙ rw (replace_variables-written pieces hs) refl

  -- A text written as pieces without a `$` and variables that are set is read back with the value of
  -- each variable in its place.
  pub interpolate_env-written :
      (pieces : List Piece)
      → All (IsWritable around) pieces
      → interpolate_env around (written pieces) ≡ (meant pieces, none)
  unfolding interpolate_env
  interpolate_env-written pieces h = ground (arith, replace_variables-written pieces h)
