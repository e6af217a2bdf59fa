-- ===== src/Transports/Conn.antt =====
-- internal/transport/conn.go: the check by size, and the reader that reports progress.
use uploadfun.Base.{
  ℕ, ◌+◌, ◌≡◌, ◌<◌, ◌↔◌, ltb, nat_eq, ℤ, pos, String, ◌<>◌, Bool, true, false, List, [], ◌∷◌, total,
  Option, is_some, none, some, Err, root, wrap, other, arith, Result, ok, fail, if◌then◌else◌,
}
use uploadfun.Base.Text.{show_ℕ}
use uploadfun.Cli.Throttle.{eq_ℤ}

unfoldable pub resolve_port : (port def : ℤ) → ℤ
resolve_port port def = if eq_ℤ port (pos 0) then def else port

-- `verifyBySize`, with what `os.Stat` says of the local file.
unfoldable pub compare_sizes : (local_size remote_size : ℕ) → String × Option Err
compare_sizes local_size remote_size = elim (nat_eq remote_size local_size) [
  | true ↦ ("size", none)
  | false ↦ (
    "",
    some (
        root other (
          "size mismatch: local "
          <> show_ℕ local_size
          <> " bytes, remote "
          <> show_ℕ remote_size
          <> " bytes")),
  )
]

unfoldable pub verify_by_size :
    {W : Type 0} → (W → Result ℕ × W) → (W → Result ℕ × W) → W → String × Option Err × W
verify_by_size stat_local remote_size w =
    let (info, w1) = stat_local w in
    elim info [
      | fail e ↦ ("", some (wrap "stat local file: " e), w1)
      | ok local ↦
          let (size, w2) = remote_size w1 in
          elim size [
            | fail e ↦ ("", some (wrap "remote size: " e), w2)
            | ok remote ↦ let (method, err) = compare_sizes local remote in (method, err, w2)
          ]
    ]

-- `progressReader`: what it reports, from the bytes sent so far, where its reads return these numbers
-- of bytes.
unfoldable pub read_reports : (size sent : ℕ) → List ℕ → List (ℕ × ℕ)
read_reports size sent [] = []
read_reports size sent (n ∷ reads) =
    let sent1 = sent + n in
    let rest = read_reports size sent1 reads in if ltb 0 n then (sent1, size) ∷ rest else rest

-- The reports have the size in them and rise from the bytes sent to all that are read.
abbrev pub IsRising : (size sent end : ℕ) → List (ℕ × ℕ) → Type 0
IsRising size sent end [] = sent ≡ end
IsRising size sent end ((s, t) ∷ reports) = (sent < s) × (t ≡ size) × IsRising size s end reports

read_reports-IsRising_from :
    (size sent : ℕ) (reads : List ℕ)
    → IsRising size sent (sent + total (λ n. n) reads) (read_reports size sent reads)
unfolding read_reports
read_reports-IsRising_from size sent [] = omega arith
read_reports-IsRising_from size sent (n ∷ reads) =
    ground (arith, read_reports-IsRising_from size (sent + n) reads)

-- The progress of an upload rises with each report, has the file's size in each, and ends with the
-- number of bytes that were read.
pub read_reports-IsRising :
    (size : ℕ) (reads : List ℕ) → IsRising size 0 (total (λ n. n) reads) (read_reports size 0 reads)
read_reports-IsRising size reads = ground (arith, read_reports-IsRising_from size 0 reads)

-- Both sizes are known, and equal.
abbrev pub are_same : Result ℕ → Result ℕ → Bool
are_same (ok a) (ok b) = nat_eq b a
are_same _ _ = false

-- The check succeeds exactly if both sizes are known and equal; its method is then "size", and else empty.
pub verify_by_size-none :
    {W : Type 0} (stat_local remote_size : W → Result ℕ × W) (w : W)
    → let (method, err, w') = verify_by_size stat_local remote_size w in
      ((err ≡ none) ↔ (are_same (stat_local w).0 (remote_size (stat_local w).1).0 ≡ true))
      × (method ≡ (if is_some err then "" else "size"))
unfolding verify_by_size compare_sizes
verify_by_size-none stat_local remote_size w = ground arith
