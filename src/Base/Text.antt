-- ===== src/Base/Text.antt =====
-- The pieces of `fmt` and `path/filepath` that the program uses, on texts.
use Prim.Native.Char.{code}
use Prim.Native.Nat.{ℕ, zero, suc, ◌/◌, ◌%◌}
use Prim.Native.String.{String, ◌++◌}
use mathlib.Core.Path.{◌≡◌, refl}
use mathlib.Core.Bool.{Bool, true, false, ◌&&◌, ◌||◌}
use mathlib.Core.List.{List, [], ◌∷◌}
use text.Mathlib.Text.{◌==◌, starts_with}
use uploadfun.Base.Tests.{nat_eq, ltb, if◌then◌else◌}
use uploadfun.Base.Int.{ℤ, pos, negsuc}

nth_digit : List String → ℕ → String
nth_digit [] n = ""
nth_digit (d ∷ ds) zero = d
nth_digit (d ∷ ds) (suc n) = nth_digit ds n

abbrev digit_names : List String
digit_names = "0" ∷ "1" ∷ "2" ∷ "3" ∷ "4" ∷ "5" ∷ "6" ∷ "7" ∷ "8" ∷ "9" ∷ []

-- Each round takes the last digit; a number has no more digits than its value plus one.
show_from : ℕ → ℕ → String → String
show_from zero n out = out
show_from (suc fuel) n out =
    let out' = nth_digit digit_names (n % 10) ++ out in
    let more = show_from fuel (n / 10) out' in if ltb n 10 then out' else more

abbrev hex_names : List String
hex_names =
    "0" ∷ "1" ∷ "2" ∷ "3" ∷ "4" ∷ "5" ∷ "6" ∷ "7" ∷ "8" ∷ "9" ∷ "a" ∷ "b" ∷ "c" ∷ "d" ∷ "e" ∷ "f"
    ∷ []

-- `%x` of bytes
unfoldable pub show_hex : List ℕ → String
unfolding nth_digit
show_hex [] = ""
show_hex (b ∷ bs) = nth_digit hex_names (b / 16) ++ nth_digit hex_names (b % 16) ++ show_hex bs

-- `%d` of a number that is not negative.
unfoldable pub show_ℕ : ℕ → String
unfolding show_from nth_digit
show_ℕ n = show_from (suc n) n ""

-- `%d`
unfoldable pub show_ℤ : ℤ → String
unfolding show_ℕ
show_ℤ (pos n) = show_ℕ n
show_ℤ (negsuc n) = "-" ++ show_ℕ (suc n)

quote_char : ℕ → String → String
quote_char c plain =
    if nat_eq c b'"'
    then "\\\""
    else if nat_eq c b'\\'
    then "\\\\"
    else if nat_eq c 10
    then "\\n"
    else if nat_eq c 13
    then "\\r"
    else if nat_eq c 9
    then "\\t"
    else plain

quote_chars : String → String
quote_chars String.[] = ""
quote_chars (String.◌∷◌ c s) = quote_char (code c) (String.◌∷◌ c "") ++ quote_chars s

-- `%q` of a text whose characters are printable, or newlines, returns or tabs.
unfoldable pub quote : String → String
unfolding quote_chars quote_char
quote s = "\"" ++ quote_chars s ++ "\""

abbrev pub is_empty : String → Bool
is_empty String.[] = true
is_empty (String.◌∷◌ c s) = false

drop_slashes : String → String
drop_slashes String.[] = ""
drop_slashes (String.◌∷◌ c s) =
    let rest = drop_slashes s in
    if is_empty rest && nat_eq (code c) b'/' then "" else String.◌∷◌ c rest

has_slash : String → Bool
has_slash String.[] = false
has_slash (String.◌∷◌ c s) = nat_eq (code c) b'/' || has_slash s

after_last_slash : String → String
unfolding has_slash
after_last_slash String.[] = ""
after_last_slash (String.◌∷◌ c s) =
    let rest = after_last_slash s in
    if has_slash s then rest else if nat_eq (code c) b'/' then s else String.◌∷◌ c s

-- `filepath.Base` where the separator is '/'.
unfoldable pub base : String → String
unfolding drop_slashes after_last_slash
base path =
    if is_empty path
    then "."
    else let t = drop_slashes path in if is_empty t then "/" else after_last_slash t

start_part : Bool → String → List String → List String
start_part true c parts = "" ∷ parts
start_part false c [] = c ∷ []
start_part false c (part ∷ parts) = (c ++ part) ∷ parts

up : Bool → List String → List String
up true [] = []
up false [] = ".." ∷ []
up rooted (part ∷ out) = if part == ".." then ".." ∷ part ∷ out else out

-- The parts of a path between its slashes.
split_slashes : String → List String
split_slashes String.[] = "" ∷ []
split_slashes (String.◌∷◌ c s) =
    start_part (nat_eq (code c) b'/') (String.◌∷◌ c "") (split_slashes s)

-- The parts of a path from its parts without `..`, latest first: `..` takes away the part before it
-- where there is one, and leads nowhere from the root.
resolve_parts : Bool → List String → List String → List String
resolve_parts rooted [] out = out
resolve_parts rooted (part ∷ parts) out =
    resolve_parts rooted parts (
      if part == "" || part == "." then out else if part == ".." then up rooted out else part ∷ out)

join_parts : List String → String → String
join_parts [] after = after
join_parts (part ∷ parts) after =
    join_parts parts (if is_empty after then part else part ++ "/" ++ after)

-- `filepath.Clean` where the separator is '/'.
unfoldable pub clean : String → String
unfolding split_slashes start_part resolve_parts up join_parts
clean path =
    let rooted = starts_with path "/" in
    let text = join_parts (resolve_parts rooted (split_slashes path) []) "" in
    if rooted then "/" ++ text else if is_empty text then "." else text

-- `filepath.Join` of a directory's path, which is not empty, and a name.
unfoldable pub join_path : (dir name : String) → String
unfolding clean
join_path dir name = clean (dir ++ "/" ++ name)

base_runs : (base "a/b.jpg" ≡ "b.jpg") × (base "x" ≡ "x") × (base "d/e//" ≡ "e") × (base "//" ≡ "/")
unfolding base
base_runs = (refl, refl, refl, refl)

show_runs : (show_ℕ 0 ≡ "0") × (show_ℕ 1907 ≡ "1907") × (show_ℤ (negsuc 11) ≡ "-12")
unfolding show_ℤ
show_runs = (refl, refl, refl)

quote_runs : quote "a\"b" ≡ "\"a\\\"b\""
unfolding quote
quote_runs = refl

join_path_runs :
    (join_path "a/b" "c.jpg" ≡ "a/b/c.jpg")
    × (join_path "." "x" ≡ "x")
    × (join_path "/d/../e//" "x" ≡ "/e/x")
    × (join_path "../.." "x" ≡ "../../x")
    × (join_path "/" "x" ≡ "/x")
unfolding join_path
join_path_runs = (refl, refl, refl, refl, refl)
