-- ===== src/Cli/Full.antt =====
-- cmd/uploadfun/printer.go: the line of a file that is sent in full.
use uploadfun.Base.{
  ℕ, ◌*◌, ◌^◌, ◌≤◌, ◌<◌, ◌≡◌, refl, sym, ap, subst, ◌∙◌, inl, String, Bool, true, false, List, [],
  ◌∷◌, map, All, Any, total, arith, none, some,
}
use uploadfun.Cli.Json.{Line}
use uploadfun.Upload.{UploadEvent, file_start, progress, dry_run}
use uploadfun.Cli.Printer.{
  verbose, Printer, Format, write_stdout, write_stderr, write_unless_quiet, print_progress,
  handle_progress, handle, process_from, process_events, flag_after,
}
use uploadfun.Dispatch.Fan.{Shuffle}
use uploadfun.Transports.Conn.{IsRising, read_reports, read_reports-IsRising}
use uploadfun.Cli.Keys.{has_no_nul}
use uploadfun.Cli.Elsewhere.{IsElsewhere, handle-IsElsewhere}
use uploadfun.Cli.Percent.{percent, percent_lt}
use uploadfun.Cli.Levels.{AtLevel, full_line, handle_progress-full_line}
use uploadfun.Cli.Steps.{
  report, IsRising-level, file_start-level, handle-progress, AtLevel-IsElsewhere,
}

module _ {C : Type 0} (format : Format C) where
  -- Lines stay on the standard output.
  handle-Any :
      (P : Line → Type 0) (ev : UploadEvent) (p : Printer C)
      → Any P p.stdout
      → Any P (handle format ev p).stdout
  unfolding handle handle_progress print_progress write_stdout write_stderr write_unless_quiet
  handle-Any P (dry_run e n none) p h = ground arith
  handle-Any P (dry_run e n (some err)) p h = h
  handle-Any P (file_start e f n) p h = ground arith
  handle-Any P (progress e f sent total) p h = ground arith
  handle-Any P ev p h = ground arith

  process_from-Any :
      (P : Line → Type 0) (events : List UploadEvent) (flag : Bool) (p : Printer C)
      → Any P p.stdout
      → Any P (process_from format events flag p).0.stdout
  unfolding process_from
  process_from-Any P [] flag p h = h
  process_from-Any P (ev ∷ events) flag p h =
      process_from-Any P events (flag_after format ev flag) (handle format ev p)
        (handle-Any P ev p h)

module _ {C : Type 0} (format : Format C) (endpoint file : String)
    (named : has_no_nul endpoint ≡ true) where
  -- The line of the full file is on the standard output.
  abbrev pub HasFull : (size : ℕ) → Bool → Printer C → Type 0
  HasFull size json p = Any (λ (l : Line). l ≡ full_line format endpoint file json size) p.stdout

  reports-HasFull :
      (events : List UploadEvent) (k size sent s t : ℕ) (reports : List (ℕ × ℕ))
      {others : List UploadEvent} (flag : Bool) (p : Printer C)
      → Shuffle (map (report format endpoint file named) ((s, t) ∷ reports)) others events
      → All (IsElsewhere endpoint file) others
      → IsRising size sent size ((s, t) ∷ reports)
      → size * 100 < 2 ^ 63
      → p.mode ≡ verbose
      → 10 * k ≤ percent sent size
      → AtLevel format endpoint file k p
      → HasFull size p.json (process_from format events flag p).0
  unfolding process_from
  reports-HasFull [] k size sent s t reports flag p sh others rising small mode above at =
      elim sh [ ]
  reports-HasFull (ev ∷ events) k size sent s t reports flag p (Shuffle.right sh) (other, others)
        rising small mode above at =
      let (_, mode1, json1) = handle-IsElsewhere format endpoint file named ev p other in
      let p1 = handle format ev p in
      subst (λ j. HasFull size j (process_from format (ev ∷ events) flag p).0) json1
        (reports-HasFull events k size sent s t reports (flag_after format ev flag) p1 sh others
          rising small (mode1 ∙ mode) above
          (AtLevel-IsElsewhere format endpoint file named k ev p other at))
  reports-HasFull (ev ∷ events) k size sent s t [] flag p (Shuffle.left sh) others (up, same, all)
        small mode above at =
      let low = percent_lt sent size (ground (arith, up, all)) in
      let full = handle_progress-full_line format endpoint file k size p small (omega arith) at in
      let p1 = handle format (progress endpoint file s t) p in
      let line : p1.stdout ≡ full_line format endpoint file p.json size ∷ p.stdout =
        ap (λ (q : Printer C). q.stdout) (handle-progress format endpoint file named s t p mode)
        ∙ rw (all, same) full in
      let IsFull = λ (l : Line). l ≡ full_line format endpoint file p.json size in
      process_from-Any format IsFull events (flag_after format (progress endpoint file s t) flag) p1
        (subst (Any IsFull) (sym line) (inl refl))
  reports-HasFull (ev ∷ events) k size sent s t ((s1, t1) ∷ reports) flag p (Shuffle.left sh) others
        (up, same, rising) small mode above at =
      let (k1, at1, below, lines, mode1, json1) =
        IsRising-level format endpoint file named k size sent size s t ((s1, t1) ∷ reports) p
          (up, same, rising) (omega arith) small above at in
      let p1 = handle_progress format endpoint file s t p in
      let flag1 = flag_after format (progress endpoint file s t) flag in
      let step = handle-progress format endpoint file named s t p mode in
      subst (λ q. HasFull size p.json (process_from format events flag1 q).0) (sym step)
        (subst (λ j. HasFull size j (process_from format events flag1 p1).0) json1
          (reports-HasFull events k1 size s s1 t1 reports flag1 p1 sh others rising small
            (mode1 ∙ mode) below at1))

  started-HasFull :
      (events : List UploadEvent) (size : ℕ) (reports : List (ℕ × ℕ)) {others : List UploadEvent}
      (flag : Bool) (p : Printer C)
      → Shuffle (map (report format endpoint file named) reports) others events
      → All (IsElsewhere endpoint file) others
      → IsRising size 0 size reports
      → 0 < size
      → size * 100 < 2 ^ 63
      → p.mode ≡ verbose
      → AtLevel format endpoint file 0 p
      → HasFull size p.json (process_from format events flag p).0
  started-HasFull events size [] flag p sh others all filled small mode at =
      absurd (ground (arith, all, filled))
  started-HasFull events size ((s, t) ∷ reports) flag p sh others rising filled small mode at =
      reports-HasFull events 0 size 0 s t reports flag p sh others rising small mode (omega arith)
        at

  transfer-HasFull :
      (events : List UploadEvent) (attempt size : ℕ) (reads : List ℕ) {others : List UploadEvent}
      (flag : Bool) (p : Printer C)
      → Shuffle
          (file_start endpoint file attempt
            ∷ map (report format endpoint file named) (read_reports size 0 reads))
          others
          events
      → All (IsElsewhere endpoint file) others
      → total (λ n. n) reads ≡ size
      → 0 < size
      → size * 100 < 2 ^ 63
      → p.mode ≡ verbose
      → HasFull size p.json (process_from format events flag p).0
  unfolding process_from flag_after
  transfer-HasFull [] attempt size reads flag p sh others all filled small mode = elim sh [ ]
  transfer-HasFull (ev ∷ events) attempt size reads flag p (Shuffle.right sh) (other, others) all
        filled small mode =
      let (_, mode1, json1) = handle-IsElsewhere format endpoint file named ev p other in
      let p1 = handle format ev p in
      subst (λ j. HasFull size j (process_from format (ev ∷ events) flag p).0) json1
        (transfer-HasFull events attempt size reads (flag_after format ev flag) p1 sh others all
          filled small (mode1 ∙ mode))
  transfer-HasFull (ev ∷ events) attempt size reads flag p (Shuffle.left sh) others all filled small
        mode =
      let reports = read_reports size 0 reads in
      let rising = subst (λ e. IsRising size 0 e reports) all (read_reports-IsRising size reads) in
      let p1 = handle format (file_start endpoint file attempt) p in
      let (at, lines, mode1, json1) = file_start-level format endpoint file named attempt p mode in
      subst (λ j. HasFull size j (process_from format (ev ∷ events) flag p).0) json1
        (started-HasFull events size reports flag p1 sh others rising filled small mode1 at)

  -- If all of a file is read, and no more, the line that says so gets to the standard output in the
  -- verbose mode, however soon it comes after another, while events of other transfers come between
  -- in any order. The conditions are that the file is not empty, that a hundred times its size is
  -- less than 2^63, and that no name of these endpoints has a NUL.
  pub process_events-Shuffle :
      (events : List UploadEvent) (attempt size : ℕ) (reads : List ℕ) {others : List UploadEvent}
      (p : Printer C)
      → Shuffle
          (file_start endpoint file attempt
            ∷ map (report format endpoint file named) (read_reports size 0 reads))
          others
          events
      → All (IsElsewhere endpoint file) others
      → total (λ n. n) reads ≡ size
      → 0 < size
      → size * 100 < 2 ^ 63
      → p.mode ≡ verbose
      → HasFull size p.json (process_events format events p).0
  unfolding process_events
  process_events-Shuffle events attempt size reads p sh others all filled small mode =
      transfer-HasFull events attempt size reads false p sh others all filled small mode
