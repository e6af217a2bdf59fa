-- ===== src/Tests/Recovery.antt =====
-- Runs of dispatch.go with faults, without any, and cancelled.
use uploadfun.Base.{
  leb, Bool, if◌then◌else◌, ◌+◌, ℕ, ◌≡◌, refl, reverse, true, false, [], ◌∷◌, none, some, is_some,
  arith, is_permission,
}
use uploadfun.Dispatch.Effects.{Uploader, Process, new_worker}
use uploadfun.Dispatch.Worker.{run}
use uploadfun.Dispatch.Tally.{success_files}
use uploadfun.Dispatch.Recovery.{run-IsTransient}
use uploadfun.Dispatch.Cancel.{IsCalm, run-IsCalm}
use uploadfun.Tests.{Answers, scripted, steady, site, options, files, refused, run_site}

-- The first upload fails once.
abbrev hiccup : Answers
hiccup = none ∷ none ∷ some refused ∷ []

run-IsTransient_example : success_files (run_site hiccup) ≡ reverse files
unfolding run_site is_permission
run-IsTransient_example =
    run-IsTransient steady scripted site options files hiccup
      (record { attempts = omega arith; connects = omega arith; context = refl; permission = refl })

abbrev pub quiet_server : Uploader ℕ
quiet_server = record {
  connect = λ timeout ep w. (none, w + 1);
  disconnect = λ w. (none, w);
  delete = λ remote w. (none, w);
  upload = λ file remote w. ((10, 10) ∷ [], none, w);
  verify = λ file remote w. ("size", none, w);
}

-- A process whose context is cancelled from the moment 2 of its clock.
abbrev cancel_at : ℕ → Process ℕ
cancel_at limit = record {
  ctx_err = λ w. (if leb limit w then some refused else none, w);
  now = λ w. (w, w);
  sleep = λ delay w. w + 1;
  create_temp = λ w. (none, "/tmp/p", w);
  write_string = λ name text w. (none, w);
  remove = λ name w. w;
  random_bytes = λ w. (1 ∷ [], w);
}

abbrev pub calm_process : Process ℕ
calm_process = record (cancel_at 0) { ctx_err = λ w. (none, w) }

is_some-if : (b : Bool) → is_some (if b then some refused else none) ≡ b
is_some-if true = refl
is_some-if false = refl

run-IsCalm_example : IsCalm (run (cancel_at 1) quiet_server site options files (new_worker 0)).log
run-IsCalm_example =
    run-IsCalm (cancel_at 1) quiet_server site options
      (record {
        canceled = λ w. leb 1 w;
        answers = λ w. is_some-if (leb 1 w);
        after_ctx_err = λ w h. h;
      })
      files 0
