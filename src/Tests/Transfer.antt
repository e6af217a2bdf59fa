-- ===== src/Tests/Transfer.antt =====
-- The verbose output for one transfer.
use uploadfun.Base.{All, Any, ◌≡◌, ◌≤◌, refl, false, List, [], ◌∷◌, ℕ, map, arith}
use uploadfun.Upload.{UploadEvent, file_start, progress}
use uploadfun.Transports.Conn.{read_reports}
use uploadfun.Cli.Json.{Line}
use uploadfun.Cli.Printer.{verbose, new_printer, process_events}
use uploadfun.Cli.Levels.{full_line}
use uploadfun.Cli.Steps.{lines_about, lines_about-Shuffle}
use uploadfun.Cli.Full.{process_events-Shuffle}
use uploadfun.Cli.Elsewhere.{IsElsewhere}
use uploadfun.Dispatch.Fan.{Shuffle}
use text.Mathlib.TextEquality.{eq_iff}
use uploadfun.Tests.{plain}

-- A file of 100 kB in reads of 32 kB and less.
abbrev reads : List ℕ
reads = 32768 ∷ 32768 ∷ 32768 ∷ 1696 ∷ 0 ∷ []

abbrev own : List UploadEvent
own =
    file_start "site" "a.jpg" 1
    ∷ map (λ (sent, size). progress "site" "a.jpg" sent size) (read_reports 100_000 0 reads)

-- Events of another file, and of another endpoint.
abbrev others : List UploadEvent
others =
    file_start "site" "b.jpg" 1
    ∷ progress "site" "b.jpg" 5 10
    ∷ progress "site2" "a.jpg" 100_000 100_000
    ∷ []

abbrev mixed : List UploadEvent
mixed =
    file_start "site" "b.jpg" 1
    ∷ file_start "site" "a.jpg" 1
    ∷ progress "site" "b.jpg" 5 10
    ∷ progress "site" "a.jpg" 32768 100_000
    ∷ progress "site" "a.jpg" 65536 100_000
    ∷ progress "site2" "a.jpg" 100_000 100_000
    ∷ progress "site" "a.jpg" 98304 100_000
    ∷ progress "site" "a.jpg" 100_000 100_000
    ∷ []

Shuffle-mixed : Shuffle own others mixed
unfolding read_reports
Shuffle-mixed = Shuffle.right (
    Shuffle.left (
      Shuffle.right (
        Shuffle.left (Shuffle.left (Shuffle.right (Shuffle.left (Shuffle.left Shuffle.neither)))))))

others-IsElsewhere : All (IsElsewhere "site" "a.jpg") others
others-IsElsewhere = (
  (refl, λ (same_endpoint, same_file). ground (arith, eq_iff "b.jpg" "a.jpg", same_file)),
  (
    (refl, λ (same_endpoint, same_file). ground (arith, eq_iff "b.jpg" "a.jpg", same_file)),
    (
      (refl, λ (same_endpoint, same_file). ground (arith, eq_iff "site2" "site", same_endpoint)),
      tt,
    ),
  ),
)

lines_about-Shuffle_example :
    lines_about plain "site" "a.jpg" refl mixed (new_printer verbose false 0) ≤ 11
unfolding new_printer
lines_about-Shuffle_example =
    lines_about-Shuffle plain "site" "a.jpg" refl mixed 1 100_000 reads
      (new_printer verbose false 0) Shuffle-mixed others-IsElsewhere (omega arith) (omega arith)
      refl

process_events-Shuffle_example :
    Any
      (λ (l : Line). l ≡ full_line plain "site" "a.jpg" false 100_000)
      (process_events plain mixed (new_printer verbose false 0)).0.stdout
unfolding new_printer
process_events-Shuffle_example =
    process_events-Shuffle plain "site" "a.jpg" refl mixed 1 100_000 reads
      (new_printer verbose false 0) Shuffle-mixed others-IsElsewhere refl (omega arith)
      (omega arith) refl
