-- ===== src/Cli/Steps.antt =====
-- cmd/uploadfun/printer.go: `handleProgress` over the progress of one transfer.
use native.Mathlib.Nat.{le_trans}
use text.Mathlib.TextPositions.{eq_refl}
use uploadfun.Base.{
  ℕ, suc, ◌+◌, ◌*◌, ◌^◌, ◌≤◌, ◌<◌, ◌≡◌, refl, ◌∙◌, inl, String, false, List, [], ◌∷◌, length, ◌-◌,
  true, All, if◌then◌else◌, map, total, arith,
}
use uploadfun.Upload.{UploadEvent, file_start, progress}
use uploadfun.Cli.Throttle.{fresh, find_progress, progress_key}
use uploadfun.Cli.Printer.{
  verbose, Printer, Format, write_stdout, print_progress, handle_progress, handle, process_from,
}
use uploadfun.Dispatch.Fan.{Shuffle}
use uploadfun.Cli.Keys.{has_no_nul}
use uploadfun.Cli.Elsewhere.{IsElsewhere, is_about, is_about-IsElsewhere, handle-IsElsewhere}
use uploadfun.Transports.Conn.{IsRising, read_reports, read_reports-IsRising}
use uploadfun.Cli.Percent.{percent, percent_mono, percent_le}
use uploadfun.Cli.Levels.{AtLevel, handle_progress-level}

module _ {C : Type 0} (format : Format C) (endpoint file : String)
    (named : has_no_nul endpoint ≡ true) where
  abbrev pub report : ℕ × ℕ → UploadEvent
  report (sent, total) = progress endpoint file sent total

  -- What is printed for a file while it is sent.
  abbrev pub printed : List (ℕ × ℕ) → Printer C → Printer C
  printed reports p = (process_from format (map report reports) false p).0

  IsRising-le :
      (size sent end : ℕ) (reports : List (ℕ × ℕ)) → IsRising size sent end reports → sent ≤ end
  IsRising-le size sent end [] rising = ground (arith, rising)
  IsRising-le size sent end ((s, t) ∷ reports) (up, same, rising) =
      ground (arith, up, IsRising-le size s end reports rising)

  -- One report of some that rise.
  pub IsRising-level :
      (k size sent end s t : ℕ) (reports : List (ℕ × ℕ)) (p : Printer C)
      → IsRising size sent end ((s, t) ∷ reports)
      → end ≤ size
      → size * 100 < 2 ^ 63
      → 10 * k ≤ percent sent size
      → AtLevel format endpoint file k p
      → let p1 = handle_progress format endpoint file s t p in
        (k1 : ℕ) × AtLevel format endpoint file k1 p1
        × (10 * k1 ≤ percent s size)
        × (length p1.stdout + k ≤ length p.stdout + k1)
        × (p1.mode ≡ p.mode)
        × (p1.json ≡ p.json)
  IsRising-level k size sent end s t reports p (up, same, rising) h small above at =
      let top = le_trans (IsRising-le size s end reports rising) h in
      let before = le_trans above (percent_mono sent s size (omega arith)) in
      let (k1, at1, below, more, mode1, json1) =
        handle_progress-level format endpoint file k s t p (ground (arith, same, top))
          (ground (arith, same, small)) (ground (arith, same, before)) at in
      (k1, at1, ground (arith, same, below), more, mode1, json1)

  -- The lines on the standard output that the events of this transfer add, while others are handled
  -- between them.
  unfoldable pub lines_about : List UploadEvent → Printer C → ℕ
  lines_about [] p = 0
  lines_about (ev ∷ events) p =
      let p1 = handle format ev p in
      let more = lines_about events p1 in
      if is_about endpoint file ev then length p1.stdout - length p.stdout + more else more

  -- An event of another transfer keeps the level.
  pub AtLevel-IsElsewhere :
      (k : ℕ) (ev : UploadEvent) (p : Printer C)
      → IsElsewhere endpoint file ev
      → AtLevel format endpoint file k p
      → AtLevel format endpoint file k (handle format ev p)
  AtLevel-IsElsewhere k ev p other (st, found, level) =
      (st, (handle-IsElsewhere format endpoint file named ev p other).0 ∙ found, level)

  pub handle-progress :
      (s t : ℕ) (p : Printer C)
      → p.mode ≡ verbose
      → handle format (progress endpoint file s t) p ≡ handle_progress format endpoint file s t p
  unfolding handle
  handle-progress s t p mode = ground (arith, mode)

  handle_progress_grows :
      (s t : ℕ) (p : Printer C)
      → length p.stdout ≤ length (handle_progress format endpoint file s t p).stdout
  unfolding handle_progress print_progress write_stdout
  handle_progress_grows s t p = ground arith

  lines_about-reports :
      (events : List UploadEvent) (k size sent end : ℕ) (reports : List (ℕ × ℕ))
      {others : List UploadEvent} (p : Printer C)
      → Shuffle (map report reports) others events
      → All (IsElsewhere endpoint file) others
      → IsRising size sent end reports
      → end ≤ size
      → size * 100 < 2 ^ 63
      → p.mode ≡ verbose
      → 10 * k ≤ percent sent size
      → AtLevel format endpoint file k p
      → lines_about events p + k ≤ 10
  unfolding lines_about
  lines_about-reports [] k size sent end [] p Shuffle.neither other rising h small mode above at =
      ground (arith, percent_le sent size)
  lines_about-reports [] k size sent end (r ∷ reports) p sh other rising h small mode above at =
      elim sh [ ]
  lines_about-reports (ev ∷ events) k size sent end [] p (Shuffle.right sh) (other, others) rising h
        small mode above at =
      let (_, mode1, json1) = handle-IsElsewhere format endpoint file named ev p other in
      let p1 = handle format ev p in
      ground (
        arith,
        is_about-IsElsewhere endpoint file ev other,
        lines_about-reports events k size sent end [] p1 sh others rising h small (mode1 ∙ mode)
            above (AtLevel-IsElsewhere k ev p other at),
      )
  lines_about-reports (ev ∷ events) k size sent end ((s, t) ∷ reports) p (Shuffle.right sh)
        (other, others) rising h small mode above at =
      let (_, mode1, json1) = handle-IsElsewhere format endpoint file named ev p other in
      let p1 = handle format ev p in
      ground (
        arith,
        is_about-IsElsewhere endpoint file ev other,
        lines_about-reports events k size sent end ((s, t) ∷ reports) p1 sh others rising h small
            (mode1 ∙ mode) above (AtLevel-IsElsewhere k ev p other at),
      )
  lines_about-reports (ev ∷ events) k size sent end ((s, t) ∷ reports) p (Shuffle.left sh) others
        (up, same, rising) h small mode above at =
      let (k1, at1, below, lines, mode1, json1) =
        IsRising-level k size sent end s t reports p (up, same, rising) h small above at in
      let p1 = handle_progress format endpoint file s t p in
      ground (
        arith,
        handle-progress s t p mode,
        handle_progress_grows s t p,
        lines,
        eq_refl endpoint,
        eq_refl file,
        lines_about-reports events k1 size s end reports p1 sh others rising h small (mode1 ∙ mode)
            below at1,
      )

  -- After the start of a file the level is 0.
  pub file_start-level :
      (attempt : ℕ) (p : Printer C)
      → p.mode ≡ verbose
      → let p1 = handle format (file_start endpoint file attempt) p in
        AtLevel format endpoint file 0 p1
        × (length p1.stdout ≡ suc (length p.stdout))
        × (p1.mode ≡ verbose)
        × (p1.json ≡ p.json)
  unfolding handle write_stdout find_progress
  file_start-level attempt p mode = (
    (fresh, ground (arith, mode, eq_refl (progress_key endpoint file)), inl (refl, refl)),
    ground (arith, mode),
    ground (arith, mode),
    ground (arith, mode),
  )

  -- In the verbose mode the progress of one transfer, its start included, adds at most eleven lines to the
  -- standard output, while events of other transfers come between in any order. The conditions are
  -- that no more is read than the file's size, that a hundred times that size is less than 2^63, and
  -- that no name of these endpoints has a NUL.
  pub lines_about-Shuffle :
      (events : List UploadEvent) (attempt size : ℕ) (reads : List ℕ) {others : List UploadEvent}
      (p : Printer C)
      → Shuffle
          (file_start endpoint file attempt ∷ map report (read_reports size 0 reads))
          others
          events
      → All (IsElsewhere endpoint file) others
      → total (λ n. n) reads ≤ size
      → size * 100 < 2 ^ 63
      → p.mode ≡ verbose
      → lines_about events p ≤ 11
  unfolding lines_about
  lines_about-Shuffle [] attempt size reads p sh others h small mode = elim sh [ ]
  lines_about-Shuffle (ev ∷ events) attempt size reads p (Shuffle.right sh) (other, others) h small
        mode =
      let (_, mode1, json1) = handle-IsElsewhere format endpoint file named ev p other in
      let p1 = handle format ev p in
      ground (
        arith,
        is_about-IsElsewhere endpoint file ev other,
        lines_about-Shuffle events attempt size reads p1 sh others h small (mode1 ∙ mode),
      )
  lines_about-Shuffle (ev ∷ events) attempt size reads p (Shuffle.left sh) others h small mode =
      let p1 = handle format (file_start endpoint file attempt) p in
      let (at, lines, mode1, json1) = file_start-level attempt p mode in
      let reports = read_reports size 0 reads in
      let rising = read_reports-IsRising size reads in
      ground (
        arith,
        lines,
        eq_refl endpoint,
        eq_refl file,
        lines_about-reports events 0 size 0 (total (λ n. n) reads) reports p1 sh others rising h
            small mode1 (omega arith) at,
      )
