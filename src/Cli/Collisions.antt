-- ===== src/Cli/Collisions.antt =====
-- cmd/uploadfun/main.go: no two files of a batch have the same name on a server.
use text.Mathlib.TextEquality.{eq_iff}
use uploadfun.Base.{◌≡◌, refl, ◌≢◌, ◌↔◌, String, List, [], ◌∷◌, All, Distinct, map, none, arith, ok}
use uploadfun.Base.Text.{base}
use uploadfun.Cli.Files.{
  Disk, Seen, find_seen, check_from, check_basename_collisions, expand_paths, expand_all,
}

-- No file has a base name of the map.
abbrev IsNew : Seen → List String → Type 0
IsNew seen [] = Unit
IsNew seen (file ∷ files) = (find_seen (base file) seen ≡ none) × IsNew seen files

IsNew-cons :
    (name previous : String) (seen : Seen) (files : List String)
    → IsNew ((name, previous) ∷ seen) files
      ↔ (IsNew seen files × All (λ (n : String). name ≢ n) (map base files))
unfolding find_seen
IsNew-cons name previous seen [] = (λ _. (tt, tt), λ _. tt)
IsNew-cons name previous seen (file ∷ files) =
    ground (arith, eq_iff name (base file), IsNew-cons name previous seen files)

check_from-none :
    (seen : Seen) (files : List String)
    → (check_from seen files ≡ none) ↔ (IsNew seen files × Distinct (map base files))
unfolding check_from
check_from-none seen [] = (λ _. (tt, tt), λ _. refl)
check_from-none seen (file ∷ files) =
    let seen1 : Seen = (base file, file) ∷ seen in
    ground (arith, check_from-none seen1 files, IsNew-cons (base file) file seen files)

IsNew-nil : (files : List String) → IsNew [] files
unfolding find_seen
IsNew-nil [] = tt
IsNew-nil (file ∷ files) = (refl, IsNew-nil files)

-- The check finds no collision exactly if the base names are distinct.
pub check_basename_collisions-none :
    (files : List String) → (check_basename_collisions files ≡ none) ↔ Distinct (map base files)
unfolding check_basename_collisions
check_basename_collisions-none files = ground (arith, check_from-none [] files, IsNew-nil files)

-- The arguments are accepted with some files exactly if these are the files of the arguments, one
-- argument after the other, there is at least one, and their base names, under which they are
-- uploaded, are distinct.
pub expand_paths-ok :
    (disk : Disk) (paths files : List String)
    → (expand_paths disk paths ≡ ok files)
      ↔ ((expand_all disk paths ≡ ok files) × (files ≢ []) × Distinct (map base files))
unfolding expand_paths
expand_paths-ok disk paths files = ground (arith, check_basename_collisions-none files)
