-- ===== src/Cli/Expanded.antt =====
-- cmd/uploadfun/main.go: which files `expandPaths` finds, and when it refuses.
use uploadfun.Base.{
  ◌≡◌, ◌≢◌, ◌⊎◌, inl, inr, ◌↔◌, ◌∙◌, subst, sym, refl, String, List, [], ◌∷◌, Any, Distinct, map,
  Option, none, some, root, other, Err, Result, Result-cases, ok, fail, arith,
}
use uploadfun.Base.Text.{base}
use uploadfun.Cli.Files.{Disk, check_basename_collisions, expand_all, expand_paths}
use uploadfun.Cli.Collisions.{check_basename_collisions-none}
use uploadfun.Cli.Given.{IsGiven, IsBad, PathsGive, expand_all-PathsGive}
use uploadfun.Cli.Taken.{given_files, PathsTake, expand_all-PathsTake}

module _ (disk : Disk) where
  -- What `expandPaths` returns for some arguments.
  abbrev pub IsExpanded : (paths : List String) → Result (List String) → Type 0
  IsExpanded paths (ok files) =
      (files ≡ given_files disk paths)
      × ¬ (Any (IsBad disk) paths)
      × (files ≢ [])
      × Distinct (map base files)
      × ((file : String) → Any (λ (f : String). f ≡ file) files ↔ Any (IsGiven disk file) paths)
  IsExpanded paths (fail e) =
      Any (IsBad disk) paths
      ⊎ ((given_files disk paths ≡ []) ⊎ ¬ (Distinct (map base (given_files disk paths))))

  expand_all-IsGiven :
      (paths all : List String)
      → expand_all disk paths ≡ ok all
      → (file : String) → Any (λ (f : String). f ≡ file) all ↔ Any (IsGiven disk file) paths
  expand_all-IsGiven paths all h file =
      subst (PathsGive disk file paths) h (expand_all-PathsGive disk file paths)

  expand_all-IsBad :
      (paths : List String) (e : Err) → expand_all disk paths ≡ fail e → Any (IsBad disk) paths
  expand_all-IsBad paths e h =
      subst (PathsGive disk "" paths) h (expand_all-PathsGive disk "" paths)

  expand_paths-fail :
      (paths : List String) (e : Err)
      → expand_all disk paths ≡ fail e
      → expand_paths disk paths ≡ fail e
  unfolding expand_paths
  expand_paths-fail paths e h = ground (arith, h)

  -- The end of `expandPaths`, with what the check of the names says.
  expand_paths-checked :
      (paths all : List String) (r : Option Err)
      → expand_all disk paths ≡ ok all
      → check_basename_collisions all ≡ r
      → ((expand_paths disk paths ≡ ok all) × (r ≡ none) × (all ≢ []))
        ⊎ ((e : Err) × (expand_paths disk paths ≡ fail e) × ((all ≡ []) ⊎ (r ≢ none)))
  unfolding expand_paths
  expand_paths-checked paths all (some e) h c = inr (e, ground (arith, h, c), inr (ground arith))
  expand_paths-checked paths [] none h c =
      inr (root other "no regular files found in the given path(s)", ground (arith, h, c), inl refl)
  expand_paths-checked paths (f ∷ fs) none h c = inl (ground (arith, h, c), refl, ground arith)

  expand_paths-all :
      (paths all : List String)
      → expand_all disk paths ≡ ok all
      → IsExpanded paths (expand_paths disk paths)
  expand_paths-all paths all h =
      let same_names = check_basename_collisions-none all in
      let (same, good) : (all ≡ given_files disk paths) × ¬ (Any (IsBad disk) paths) =
        subst (PathsTake disk paths) h (expand_all-PathsTake disk paths) in
      elim (expand_paths-checked paths all (check_basename_collisions all) h refl) [
        | inl (result, free, some_file) ↦
            subst (IsExpanded paths) (sym result)
              (same, good, some_file, same_names.0 free, expand_all-IsGiven paths all h)
        | inr (e, result, empty_or_taken) ↦ subst (IsExpanded paths) (sym result) (
            inr (elim empty_or_taken [
              | inl none_found ↦ inl (sym same ∙ none_found)
              | inr taken ↦ inr (λ distinct.
                  taken
                    (same_names.1 (subst (λ files. Distinct (map base files)) (sym same) distinct)))
            ]))
      ]

  -- If `expandPaths` returns files, then no argument is bad, and the files are those that the arguments
  -- stand for, in order: an argument that is a regular file stands for itself, and a directory for its
  -- entries that are regular, no directories and not hidden, in the order of the directory. They are at
  -- least one, their base names, under which they are uploaded, are distinct, and a file is among them
  -- exactly if an argument is this file or is a directory with such an entry for it. If it fails, an
  -- argument is bad, or the files that the arguments stand for are none, or two of them have one base
  -- name.
  pub expand_paths-IsExpanded : (paths : List String) → IsExpanded paths (expand_paths disk paths)
  expand_paths-IsExpanded paths = elim (Result-cases (expand_all disk paths)) [
    | inl (e, bad) ↦
        subst (IsExpanded paths) (sym (expand_paths-fail paths e bad))
          (inl (expand_all-IsBad paths e bad))
    | inr (all, found) ↦ expand_paths-all paths all found
  ]
