-- ===== src/Config/Env.antt =====
-- config.go: `interpolateEnv` and `expandHome`.
use Prim.Native.Char.{code}
use uploadfun.Base.{
  ℕ, zero, suc, ◌+◌, String, ◌<>◌, ◌==◌, Bool, false, not, ◌&&◌, ◌||◌, List, [], ◌∷◌, Option, none,
  some, is_some, Err, root, other, Result, ok, fail, nat_eq, leb, starts_with, if◌then◌else◌,
}
use uploadfun.Base.Text.{is_empty, join_path}

-- `os.LookupEnv` and `os.UserHomeDir`
pub record Surroundings : Type 0 where
  pub lookup_env : String → Option String
  pub home_dir : Result String

abbrev pub is_letter : ℕ → Bool
is_letter c = (leb b'A' c && leb c b'Z') || (leb b'a' c && leb c b'z') || nat_eq c b'_'

abbrev pub is_digit : ℕ → Bool
is_digit c = leb b'0' c && leb c b'9'

-- The characters of a name at the front, and what is behind them.
unfoldable pub name_part : String → String × String
name_part String.[] = ("", "")
name_part (String.◌∷◌ c s) =
    let (name, rest) = name_part s in
    if is_letter (code c) || is_digit (code c)
    then (String.◌∷◌ c name, rest)
    else ("", String.◌∷◌ c s)

unfoldable pub starts_with_letter : String → Bool
starts_with_letter String.[] = false
starts_with_letter (String.◌∷◌ c s) = is_letter (code c)

unfoldable pub drop_first : String → String
drop_first String.[] = ""
drop_first (String.◌∷◌ c s) = s

-- What is behind a character at the front.
unfoldable pub after_char : ℕ → String → Option String
after_char k String.[] = none
after_char k (String.◌∷◌ c s) = if nat_eq (code c) k then some s else none

-- The name at the front, if it is followed by `}`.
unfoldable pub closed_name : String → Option String
closed_name s =
    let (name, rest) = name_part s in
    if starts_with_letter name && is_some (after_char b'}' rest) then some name else none

-- The name in a match of `envVarPattern` at the front: `${`, a letter or underscore, more of these or
-- digits, and `}`.
unfoldable pub match_variable : String → Option String
match_variable s = elim (after_char b'$' s) [
  | none ↦ none
  | some t ↦ elim (after_char b'{' t) [ none ↦ none | some u ↦ closed_name u ]
]

unfoldable pub string_length : String → ℕ
string_length String.[] = 0
string_length (String.◌∷◌ c s) = suc (string_length s)

-- `strings.Join` with a comma and a space.
unfoldable pub join_names : List String → String
join_names [] = ""
join_names (n ∷ []) = n
join_names (n ∷ m ∷ names) = n <> ", " <> join_names (m ∷ names)

module _ (around : Surroundings) where
  -- The value of a variable, or the text of the match.
  unfoldable pub replacement : String → String
  replacement name = elim (around.lookup_env name) [
    | some value ↦ value
    | none ↦ "${" <> name <> "}"
  ]

  unfoldable pub missing_if_unset : String → List String → List String
  missing_if_unset name missing = elim (around.lookup_env name) [
    | some value ↦ missing
    | none ↦ name ∷ missing
  ]

  -- `ReplaceAllStringFunc`: the new text, and the names that are not set. The number says how many
  -- characters still belong to the last match.
  unfoldable pub replace_variables : ℕ → String → String × List String
  replace_variables skip String.[] = ("", [])
  replace_variables (suc skip) (String.◌∷◌ c s) = replace_variables skip s
  replace_variables zero (String.◌∷◌ c s) = elim (match_variable (String.◌∷◌ c s)) [
    | none ↦ let (text, missing) = replace_variables zero s in (String.◌∷◌ c text, missing)
    | some name ↦
        let (text, missing) = replace_variables (string_length name + 2) s in
        (replacement name <> text, missing_if_unset name missing)
  ]

  unfoldable pub interpolate_env : String → String × Option Err
  interpolate_env s =
      let (result, missing) = replace_variables 0 s in
      elim missing [
        | [] ↦ (result, none)
        | name ∷ more ↦ (
          s,
          some (root other ("undefined environment variable(s): " <> join_names (name ∷ more))),
        )
      ]

  unfoldable pub expand_home : String → Result String
  expand_home p =
      if not (p == "~") && not (starts_with p "~/") then ok p else elim around.home_dir [
        | fail e ↦ fail e
        | ok home ↦ if p == "~" then ok home else ok (join_path home (drop_first (drop_first p)))
      ]

  unfoldable pub resolve_private_key_path : String → Result String
  resolve_private_key_path private_key =
      if is_empty private_key then ok "" else expand_home private_key
