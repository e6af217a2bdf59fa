-- ===== src/Cli/Levels.antt =====
-- cmd/uploadfun/printer.go: `handleProgress` on one report.
use native.Mathlib.Nat.{le_trans, le_antisymm}
use text.Mathlib.TextPositions.{eq_refl}
use uploadfun.Base.{
  ℕ, suc, ◌+◌, ◌*◌, ◌/◌, ◌^◌, ◌≤◌, ◌<◌, ◌≡◌, refl, ap, ◌∙◌, ◌⊎◌, inl, inr, ℤ, pos, negsuc, String,
  ◌<>◌, Bool, true, false, ◌∷◌, length, total, some, arith, leb,
}
use uploadfun.Base.Text.{show_ℕ, show_ℤ}
use uploadfun.Cli.Json.{Line}
use uploadfun.Upload.{progress}
use uploadfun.Cli.Throttle.{ProgressState, find_progress, progress_key, bucket_of, percent_of, eq_ℤ}
use uploadfun.Cli.Printer.{
  Printer, Format, write_stdout, print_progress, handle_progress, line_of, label,
}
use uploadfun.Cli.Percent.{
  percent, percent_of-percent, percent_mono, percent_le, percent_full, bucket_of-pos,
}

show_full : show_ℤ (pos 100) ≡ "100"
unfolding show_ℤ
show_full = refl

module _ {C : Type 0} (format : Format C) (endpoint file : String) where
  abbrev Prints : ProgressState → (bucket : ℤ) (sent total : ℕ) (p p1 : Printer C) → Type 0
  Prints st bucket sent total p p1 =
      (length p1.stdout ≡ suc (length p.stdout))
      × (find_progress (progress_key endpoint file) p1.progress_map
          ≡ some (record { last_percent = bucket; last_printed = some (format.now p.clock).0 }))
      × (eq_ℤ bucket st.last_percent ≡ false)
      × ((eq_ℤ bucket (pos 0) ≡ false) ⊎ (leb total sent ≡ true))

  handle_progress-Prints :
      (sent total : ℕ) (st : ProgressState) (p : Printer C)
      → find_progress (progress_key endpoint file) p.progress_map ≡ some st
      → let p1 = handle_progress format endpoint file sent total p in
        (p1.mode ≡ p.mode)
        × (p1.json ≡ p.json)
        × (((p1.stdout ≡ p.stdout) × (p1.progress_map ≡ p.progress_map))
            ⊎ Prints st (bucket_of (percent_of sent total)) sent total p p1)
  unfolding handle_progress print_progress find_progress write_stdout
  handle_progress-Prints sent total st p h = ground (arith, h, eq_refl (progress_key endpoint file))

  -- The last bucket of the file is `10 * k`, or `k` is 0 and there is none.
  abbrev pub AtLevel : ℕ → Printer C → Type 0
  AtLevel k p =
      (st : ProgressState) × (find_progress (progress_key endpoint file) p.progress_map ≡ some st)
      × (((st.last_percent ≡ negsuc 0) × (k ≡ 0)) ⊎ (st.last_percent ≡ pos (10 * k)))

  -- A line that is printed moves the level up.
  Prints-level :
      (k sent total : ℕ) (st : ProgressState) (p p1 : Printer C)
      → sent ≤ total
      → total * 100 < 2 ^ 63
      → 10 * k ≤ percent sent total
      → ((st.last_percent ≡ negsuc 0) × (k ≡ 0)) ⊎ (st.last_percent ≡ pos (10 * k))
      → Prints st (bucket_of (percent_of sent total)) sent total p p1
      → (k < percent sent total / 10)
        × AtLevel (percent sent total / 10) p1
        × (10 * (percent sent total / 10) ≤ percent sent total)
  Prints-level k sent total st p p1 h small above level (lines, found, moved, started) =
      let n = percent sent total in
      let bucket : bucket_of (percent_of sent total) ≡ pos (10 * (n / 10)) =
        ap bucket_of (percent_of-percent sent total h small) ∙ bucket_of-pos n in
      let full =
        λ (all : total ≤ sent). le_trans (percent_full total) (percent_mono total sent total all) in
      (ground (arith, bucket, full), (_, found, inr bucket), omega arith)

  -- One report: each line that it adds moves the level up.
  pub handle_progress-level :
      (k sent total : ℕ) (p : Printer C)
      → sent ≤ total
      → total * 100 < 2 ^ 63
      → 10 * k ≤ percent sent total
      → AtLevel k p
      → let p1 = handle_progress format endpoint file sent total p in
        (k1 : ℕ) × AtLevel k1 p1
        × (10 * k1 ≤ percent sent total)
        × (length p1.stdout + k ≤ length p.stdout + k1)
        × (p1.mode ≡ p.mode)
        × (p1.json ≡ p.json)
  handle_progress-level k sent total p h small above (st, found, level) =
      let p1 = handle_progress format endpoint file sent total p in
      let (mode, json, step) = handle_progress-Prints sent total st p found in
      elim step [
        | inl (same, map_same) ↦ (
          k,
          (st, ap (find_progress (progress_key endpoint file)) map_same ∙ found, level),
          above,
          ground (arith, same),
          mode,
          json,
        )
        | inr prints ↦
            let (up, at, below) = Prints-level k sent total st p p1 h small above level prints in
            (percent sent total / 10, at, below, ground (arith, prints.0, up), mode, json)
      ]

  -- The line of a file that is sent in full.
  abbrev pub full_line : (json : Bool) (size : ℕ) → Line
  full_line json size = line_of json (progress endpoint file size size) (
      label format endpoint file
      <> ": "
      <> "100"
      <> "% ("
      <> show_ℕ size
      <> "/"
      <> show_ℕ size
      <> " bytes)")

  pub handle_progress-full_line :
      (k size : ℕ) (p : Printer C)
      → size * 100 < 2 ^ 63
      → k < 10
      → AtLevel k p
      → (handle_progress format endpoint file size size p).stdout ≡ full_line p.json size ∷ p.stdout
  unfolding handle_progress print_progress write_stdout
  handle_progress-full_line k size p small low (st, found, level) =
      let full : percent_of size size ≡ pos 100 =
        percent_of-percent size size (omega arith) small
        ∙ ap pos (le_antisymm (percent_le size size (omega arith)) (percent_full size)) in
      ground (arith, full, found, bucket_of-pos 100, show_full)
