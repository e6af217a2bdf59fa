-- ===== src/Cli/Given.antt =====
-- cmd/uploadfun/main.go: which files an argument stands for.
use uploadfun.Base.{
  ◌≡◌, ◌⊎◌, inl, inr, ◌↔◌, String, Bool, true, false, not, ◌||◌, List, [], ◌∷◌, ◌++◌, Any, Err,
  Result, Result-cases, ok, fail, arith, starts_with,
}
use uploadfun.Base.Text.{join_path}
use uploadfun.Cli.Files.{FileInfo, DirEntry, Disk, expand_entries, expand_path, expand_all}

-- An entry that is no directory and not hidden.
abbrev pub is_visible : DirEntry → Bool
is_visible entry = not (entry.is_dir || starts_with entry.name ".")

-- The entry of a directory is this file.
abbrev pub IsEntry : (dir file : String) → DirEntry → Type 0
IsEntry dir file entry =
    (is_visible entry ≡ true)
    × ((info : FileInfo) × (entry.info ≡ ok info) × (info.is_regular ≡ true))
    × (join_path dir entry.name ≡ file)

-- The entry cannot be looked at.
abbrev pub IsBroken : DirEntry → Type 0
IsBroken entry = (is_visible entry ≡ true) × ((e : Err) × (entry.info ≡ fail e))

abbrev EntriesGive : (dir file : String) → List DirEntry → Result (List String) → Type 0
EntriesGive dir file entries (ok files) =
    (Any (λ (f : String). f ≡ file) files ↔ Any (IsEntry dir file) entries)
EntriesGive dir file entries (fail e) = Any IsBroken entries

expand_entries-EntriesGive :
    (dir file : String) (entries : List DirEntry)
    → EntriesGive dir file entries (expand_entries dir entries)
unfolding expand_entries
expand_entries-EntriesGive dir file [] = (λ h. absurd h, λ h. absurd h)
expand_entries-EntriesGive dir file (entry ∷ entries) =
    ground (arith, expand_entries-EntriesGive dir file entries)

Any-append :
    (file : String) (xs ys : List String)
    → Any (λ (f : String). f ≡ file) (xs ++ ys)
      ↔ (Any (λ (f : String). f ≡ file) xs ⊎ Any (λ (f : String). f ≡ file) ys)
Any-append file [] ys = (λ h. inr h, λ h. elim h [ inl a ↦ absurd a | inr b ↦ b ])
Any-append file (x ∷ xs) ys = ground (arith, Any-append file xs ys)

module _ (disk : Disk) where
  -- The argument is this file, or a directory that has it as an entry.
  abbrev pub IsGiven : (file path : String) → Type 0
  IsGiven file path =
      (info : FileInfo) × (disk.stat path ≡ ok info)
      × (((info.is_dir ≡ false) × (info.is_regular ≡ true) × (path ≡ file))
          ⊎ ((info.is_dir ≡ true)
              × ((entries : List DirEntry) × (disk.read_dir path ≡ ok entries)
                  × Any (IsEntry path file) entries)))

  -- The argument cannot be looked at, is neither a regular file nor a directory, or is a directory that
  -- cannot be read or has an entry that cannot be looked at.
  abbrev pub IsBad : (path : String) → Type 0
  IsBad path =
      ((e : Err) × (disk.stat path ≡ fail e))
      ⊎ ((info : FileInfo) × (disk.stat path ≡ ok info)
          × (((info.is_dir ≡ false) × (info.is_regular ≡ false))
              ⊎ ((info.is_dir ≡ true)
                  × (((e : Err) × (disk.read_dir path ≡ fail e))
                      ⊎ ((entries : List DirEntry) × (disk.read_dir path ≡ ok entries)
                          × Any IsBroken entries)))))

  abbrev PathGives : (file path : String) → Result (List String) → Type 0
  PathGives file path (ok files) = (Any (λ (f : String). f ≡ file) files ↔ IsGiven file path)
  PathGives file path (fail e) = IsBad path

  expand_path-PathGives : (file path : String) → PathGives file path (expand_path disk path)
  unfolding expand_path
  expand_path-PathGives file path = elim (Result-cases (disk.read_dir path)) [
    | inl (e, bad) ↦ ground (arith, bad)
    | inr (entries, read) ↦ ground (arith, read, expand_entries-EntriesGive path file entries)
  ]

  abbrev pub PathsGive : (file : String) → List String → Result (List String) → Type 0
  PathsGive file paths (ok files) =
      (Any (λ (f : String). f ≡ file) files ↔ Any (IsGiven file) paths)
  PathsGive file paths (fail e) = Any IsBad paths

  -- The results of one argument and of those behind it, put together.
  abbrev pub joined : Result (List String) → Result (List String) → Result (List String)
  joined first rest = elim first [
    | fail e ↦ fail e
    | ok files ↦ elim rest [ fail e ↦ fail e | ok more ↦ ok (files ++ more) ]
  ]

  joined-PathsGive :
      (file path : String) (paths : List String) (first rest : Result (List String))
      → PathGives file path first
      → PathsGive file paths rest
      → PathsGive file (path ∷ paths) (joined first rest)
  joined-PathsGive file path paths (fail e) rest bad g = inl bad
  joined-PathsGive file path paths (ok files) (fail e) given bad = inr bad
  joined-PathsGive file path paths (ok files) (ok more) given g =
      let split = Any-append file files more in
      (
        λ h. elim (split.0 h) [ inl a ↦ inl (given.0 a) | inr b ↦ inr (g.0 b) ],
        λ h. elim h [ inl a ↦ split.1 (inl (given.1 a)) | inr b ↦ split.1 (inr (g.1 b)) ],
      )

  pub expand_all-PathsGive :
      (file : String) (paths : List String) → PathsGive file paths (expand_all disk paths)
  unfolding expand_all
  expand_all-PathsGive file [] = (λ h. absurd h, λ h. absurd h)
  expand_all-PathsGive file (path ∷ paths) =
      joined-PathsGive file path paths (expand_path disk path) (expand_all disk paths)
        (expand_path-PathGives file path) (expand_all-PathsGive file paths)
