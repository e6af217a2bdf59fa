-- ===== src/Tests/Order.antt =====
-- Two deliveries of one run, in different orders.
use uploadfun.Base.{◌≡◌, true, List, [], ◌∷◌, ◌++◌, length}
use uploadfun.Upload.{Endpoint, UploadEvent}
use uploadfun.Dispatch.Effects.{sent}
use uploadfun.Dispatch.Fan.{Shuffle, Shuffles, run_endpoint}
use uploadfun.Dispatch.Stream.{Shuffle-append}
use uploadfun.Cli.Printer.{default, quiet, new_printer, process_events}
use uploadfun.Cli.Order.{process_events-Delivered}
use uploadfun.Tests.{Answers, site, flaky, options, files, plain, steady, new_uploader}

Shuffle-nil : (ys : List UploadEvent) → Shuffle [] ys ys
Shuffle-nil [] = Shuffle.neither
Shuffle-nil (y ∷ ys) = Shuffle.right (Shuffle-nil ys)

Shuffle-append_right : (xs ys : List UploadEvent) → Shuffle xs ys (ys ++ xs)
Shuffle-append_right [] [] = Shuffle.neither
Shuffle-append_right (x ∷ xs) [] = Shuffle.left (Shuffle-append_right xs [])
Shuffle-append_right xs (y ∷ ys) = Shuffle.right (Shuffle-append_right xs ys)

-- An endpoint whose first connect and first upload fail, and one of an unknown protocol.
abbrev pair_of_sites : List (Endpoint × Answers)
pair_of_sites = (site, flaky) ∷ (record site { name = "old"; protocol = "gopher" }, []) ∷ []

abbrev stream : Endpoint × Answers → List UploadEvent
stream (ep, w) = sent (run_endpoint steady new_uploader options files ep w)

abbrev flaky_stream : List UploadEvent
flaky_stream = stream (site, flaky)

abbrev old_stream : List UploadEvent
old_stream = stream (record site { name = "old"; protocol = "gopher" }, [])

-- All events of the one, then all of the other, and the other way round.
process_events-Delivered_example :
    let (p, flag) =
      process_events plain (flaky_stream ++ old_stream) (new_printer default true 0) in
    let (q, flag2) =
      process_events plain (old_stream ++ flaky_stream) (new_printer default true 0) in
    (flag ≡ flag2)
    × (length p.stderr ≡ length q.stderr)
    × (default ≡ quiet → p.stdout ≡ q.stdout)
    × (default ≡ default → length p.stdout ≡ length q.stdout)
process_events-Delivered_example =
    let rest = Shuffles.one_more Shuffles.none (Shuffle-append_right old_stream []) in
    process_events-Delivered steady new_uploader options files plain pair_of_sites
      (flaky_stream ++ old_stream) (old_stream ++ flaky_stream) default true 0
      (Shuffles.one_more rest (Shuffle-append flaky_stream old_stream))
      (Shuffles.one_more rest (Shuffle-append_right flaky_stream old_stream))
