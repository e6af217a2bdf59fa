-- ===== src/Cli/Files.antt =====
-- cmd/uploadfun/main.go: `expandPaths` and `checkBasenameCollisions`, the files of a batch.
use uploadfun.Base.{
  ℕ, String, ◌<>◌, ◌==◌, Bool, not, ◌||◌, List, [], ◌∷◌, ◌++◌, Option, none, some, Err, root, other,
  Result, ok, fail, if◌then◌else◌, is_nil, starts_with,
}
use uploadfun.Base.Text.{base, join_path, quote}

-- `os.FileInfo`, by what the program asks of it: the kind, the permission bits, and their text.
pub record FileInfo : Type 0 where
  pub is_dir : Bool
  pub is_regular : Bool
  pub perm : ℕ
  pub mode_text : String

-- `os.DirEntry`, with what `Info` returns.
pub record DirEntry : Type 0 where
  pub name : String
  pub is_dir : Bool
  pub info : Result FileInfo

-- The file system while the arguments are read: `os.Stat` and `os.ReadDir`.
pub record Disk : Type 0 where
  pub stat : String → Result FileInfo
  pub read_dir : String → Result (List DirEntry)

-- The map `seen`, from base names to files, the latest first.
abbrev pub Seen : Type 0
Seen = List (String × String)

unfoldable pub find_seen : String → Seen → Option String
find_seen name [] = none
find_seen name ((n, f) ∷ seen) = if n == name then some f else find_seen name seen

unfoldable pub collision : (previous file : String) → Err
collision previous file = root other (
    "inputs "
    <> quote previous
    <> " and "
    <> quote file
    <> " both upload to remote name "
    <> quote (base file))

-- The loop of `checkBasenameCollisions`.
unfoldable pub check_from : Seen → List String → Option Err
check_from seen [] = none
check_from seen (file ∷ files) =
    let rest = check_from ((base file, file) ∷ seen) files in
    elim (find_seen (base file) seen) [
      | some previous ↦ some (collision previous file)
      | none ↦ rest
    ]

unfoldable pub check_basename_collisions : List String → Option Err
check_basename_collisions files = check_from [] files

-- The files that an argument's directory adds, after its entries are read.
unfoldable pub expand_entries : String → List DirEntry → Result (List String)
expand_entries dir [] = ok []
expand_entries dir (entry ∷ entries) =
    let rest = expand_entries dir entries in
    if entry.is_dir || starts_with entry.name "." then rest else elim entry.info [
      | fail e ↦ fail e
      | ok info ↦
          if not info.is_regular
          then rest
          else elim rest [ fail e ↦ fail e | ok files ↦ ok (join_path dir entry.name ∷ files) ]
    ]

module _ (disk : Disk) where
  unfoldable pub expand_path : String → Result (List String)
  expand_path path = elim (disk.stat path) [
    | fail e ↦ fail e
    | ok info ↦
        if not info.is_dir
        then (if not info.is_regular
            then fail (root other (path <> ": not a regular file"))
            else ok (path ∷ []))
        else elim (disk.read_dir path) [
          | fail e ↦ fail e
          | ok entries ↦ expand_entries path entries
        ]
  ]

  -- The loop of `expandPaths`.
  unfoldable pub expand_all : List String → Result (List String)
  expand_all [] = ok []
  expand_all (path ∷ paths) =
      let rest = expand_all paths in
      elim (expand_path path) [
        | fail e ↦ fail e
        | ok files ↦ elim rest [ fail e ↦ fail e | ok more ↦ ok (files ++ more) ]
      ]

  unfoldable pub expand_paths : List String → Result (List String)
  expand_paths paths = elim (expand_all paths) [
    | fail e ↦ fail e
    | ok files ↦ elim (check_basename_collisions files) [
      | some e ↦ fail e
      | none ↦
          if is_nil files
          then fail (root other "no regular files found in the given path(s)")
          else ok files
    ]
  ]
