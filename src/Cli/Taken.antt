-- ===== src/Cli/Taken.antt =====
-- cmd/uploadfun/main.go: the list of the files that arguments stand for.
use uploadfun.Base.{
  ◌≡◌, inl, inr, refl, String, Bool, false, ◌&&◌, if◌then◌else◌, List, [], ◌∷◌, ◌++◌, Any, Result,
  Result-cases, ok, fail, arith,
}
use uploadfun.Base.Text.{join_path}
use uploadfun.Cli.Files.{DirEntry, Disk, expand_entries, expand_path, expand_all}
use uploadfun.Cli.Given.{is_visible, IsBroken, IsBad, joined}

-- The entry is visible and a regular file.
abbrev pub is_taken : DirEntry → Bool
is_taken entry = is_visible entry && elim entry.info [ fail e ↦ false | ok info ↦ info.is_regular ]

-- The files of a directory.
abbrev pub entry_files : String → List DirEntry → List String
entry_files dir [] = []
entry_files dir (entry ∷ entries) =
    let rest = entry_files dir entries in
    if is_taken entry then join_path dir entry.name ∷ rest else rest

abbrev EntriesTake : String → List DirEntry → Result (List String) → Type 0
EntriesTake dir entries (ok files) = (files ≡ entry_files dir entries) × ¬ (Any IsBroken entries)
EntriesTake dir entries (fail e) = Unit {0}

expand_entries-EntriesTake :
    (dir : String) (entries : List DirEntry) → EntriesTake dir entries (expand_entries dir entries)
unfolding expand_entries
expand_entries-EntriesTake dir [] = (refl, λ h. absurd h)
expand_entries-EntriesTake dir (entry ∷ entries) =
    ground (arith, expand_entries-EntriesTake dir entries)

module _ (disk : Disk) where
  -- The files that an argument gives.
  abbrev pub path_files : String → List String
  path_files path = elim (disk.stat path) [
    | fail e ↦ []
    | ok info ↦
        if info.is_dir
        then elim (disk.read_dir path) [ fail e ↦ [] | ok entries ↦ entry_files path entries ]
        else if info.is_regular
        then path ∷ []
        else []
  ]

  -- The files that some arguments give, in order.
  abbrev pub given_files : List String → List String
  given_files [] = []
  given_files (path ∷ paths) = path_files path ++ given_files paths

  abbrev PathTakes : (path : String) → Result (List String) → Type 0
  PathTakes path (ok files) = (files ≡ path_files path) × ¬ (IsBad disk path)
  PathTakes path (fail e) = Unit {0}

  expand_path-PathTakes : (path : String) → PathTakes path (expand_path disk path)
  unfolding expand_path
  expand_path-PathTakes path = elim (Result-cases (disk.read_dir path)) [
    | inl (e, bad) ↦ ground (arith, bad)
    | inr (entries, read) ↦ ground (arith, read, expand_entries-EntriesTake path entries)
  ]

  abbrev pub PathsTake : List String → Result (List String) → Type 0
  PathsTake paths (ok files) = (files ≡ given_files paths) × ¬ (Any (IsBad disk) paths)
  PathsTake paths (fail e) = Unit {0}

  joined-PathsTake :
      (path : String) (paths : List String) (first rest : Result (List String))
      → PathTakes path first
      → PathsTake paths rest
      → PathsTake (path ∷ paths) (joined disk first rest)
  joined-PathsTake path paths (fail e) rest h k = tt
  joined-PathsTake path paths (ok files) (fail e) h k = tt
  joined-PathsTake path paths (ok files) (ok more) (same, good) (same_rest, good_rest) =
      (rw (same, same_rest) refl, λ h. elim h [ inl a ↦ good a | inr b ↦ good_rest b ])

  pub expand_all-PathsTake : (paths : List String) → PathsTake paths (expand_all disk paths)
  unfolding expand_all
  expand_all-PathsTake [] = (refl, λ h. absurd h)
  expand_all-PathsTake (path ∷ paths) =
      joined-PathsTake path paths (expand_path disk path) (expand_all disk paths)
        (expand_path-PathTakes path) (expand_all-PathsTake paths)
