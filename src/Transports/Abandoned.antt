-- ===== src/Transports/Abandoned.antt =====
-- transports.go and dispatch.go: a batch whose first file may not be opened.
use uploadfun.Base.{
  ℕ, zero, suc, ◌+◌, ◌≤◌, ◌≡◌, refl, ap, ◌∙◌, ℤ, pos, negsuc, pos_part, sub_ℕ, leb_ℤ, String, ◌==◌,
  true, false, List, [], ◌∷◌, ◌++◌, length, none, some, arith, Err, wrap, message, ok,
}
use uploadfun.Upload.{
  Endpoint, Options, UploadEvent, overwrite_delete_first, file_start, file_error, endpoint_given_up,
  endpoint_done,
}
use uploadfun.Dispatch.Effects.{Process, Worker, new_worker, sent, sent_before}
use uploadfun.Dispatch.Worker.{
  Tally, add_failed, poll_context, read_clock, circuit_open, skip_given_up, abandon, disconnect,
  upload_file, visit, visit_all, run,
}
use uploadfun.Transports.Adapter.{
  RemoteClient, LocalFiles, Adapted, Dial, transport_uploader, around,
}
use uploadfun.Transports.Unreadable.{IsUnreadable}
use uploadfun.Transports.Refused.{upload_file-IsRefused}

-- The report on the files behind the one that was refused, if there are any.
abbrev pub given_up : Endpoint → Err → List String → List UploadEvent
given_up ep e [] = []
given_up ep e (file ∷ files) =
    endpoint_given_up ep.name (message (wrap "upload: " e)) (file ∷ files) ∷ []

suc_of : (n : ℕ) → 1 ≤ n → (m : ℕ) × (n ≡ suc m)
suc_of zero h = absurd (omega (arith, h))
suc_of (suc m) h = (m, refl)

tolerant : (limit : ℤ) → 1 ≤ pos_part limit → leb_ℤ limit (pos 0) ≡ false
tolerant (pos n) h = ground (arith, h)
tolerant (negsuc n) h = absurd (omega (arith, h))

module _ {W : Type 0} (process : Process W) (files : LocalFiles W) (dial_client : Dial W)
    (ep : Endpoint) (opts : Options) (context : (world : W) → (process.ctx_err world).0 ≡ none)
    (reachable : (timeout : ℤ) (ep : Endpoint) (world : W)
      → (client : RemoteClient W) × ((dial_client timeout ep world).0 ≡ ok client))
    (direct : (ep.overwrite == overwrite_delete_first) ≡ false) where
  -- What is reported of a batch from this file on.
  abbrev pub refusal : String → List String → Err → List UploadEvent → List UploadEvent
  refusal file rest e later =
      file_start ep.name file 1
      ∷ file_error ep.name file 1 (message (wrap "upload: " e)) (wrap "upload: " e)
      ∷ (given_up ep e rest ++ later)

  abandon-given_up :
      (e : Err) (rest : List String) (w : Worker (Adapted W)) (later : List UploadEvent)
      → let (w', n) =
          abandon
            (around process)
            (transport_uploader files dial_client)
            ep
            opts
            (wrap "upload: " e)
            rest
            w in
        (n ≡ length rest)
        × (w'.connected ≡ w.connected)
        × (sent_before w'.log later ≡ sent_before w.log (given_up ep e rest ++ later))
  unfolding abandon skip_given_up
  abandon-given_up e [] w later = (refl, refl, refl)
  abandon-given_up e (file ∷ rest) w later = (refl, refl, refl)

  visit-permanent :
      (file : String) (rest : List String) (t : Tally) (w : Worker (Adapted W)) (e : Err)
      → let up = transport_uploader files dial_client in
        let (w1, canceled) = poll_context (around process) up ep opts w in
        let (w2, done) = upload_file (around process) up ep opts file w1 in
        let (w3, n) = abandon (around process) up ep opts e rest w2 in
        canceled ≡ false
        → circuit_open (around process) up ep opts w1 ≡ false
        → done ≡ false
        → w2.permanent_err ≡ some e
        → visit (around process) up ep opts file rest t w
          ≡ (w3, add_failed n (add_failed 1 t), true)
  unfolding visit
  visit-permanent file rest t w e going closed failed permanent =
      ground (arith, going, closed, failed, permanent)

  poll_context-calm :
      (w : Worker (Adapted W))
      → let (w1, canceled) =
          poll_context (around process) (transport_uploader files dial_client) ep opts w in
        canceled ≡ false
  unfolding poll_context around
  poll_context-calm w = ground (arith, context w.world.world)

  poll_context-kept :
      (w : Worker (Adapted W))
      → let (w1, canceled) =
          poll_context (around process) (transport_uploader files dial_client) ep opts w in
        (w1.connected ≡ w.connected)
        × (w1.consecutive_connect_failures ≡ w.consecutive_connect_failures)
        × ((later : List UploadEvent) → sent_before w1.log later ≡ sent_before w.log later)
  unfolding poll_context
  poll_context-kept w = (refl, refl, λ later. refl)

  visit-refusal :
      (file : String) (rest : List String) (t : Tally) (w : Worker (Adapted W)) (e : Err)
      (rounds : ℕ) (later : List UploadEvent)
      → IsUnreadable files file e
      → w.connected ≡ false
      → pos_part ep.attempts ≡ suc rounds
      → leb_ℤ ep.max_consecutive_connect_failures (pos w.consecutive_connect_failures) ≡ false
      → let (w', t', stop) =
          visit (around process) (transport_uploader files dial_client) ep opts file rest t w in
        (stop ≡ true)
        × (t' ≡ add_failed (length rest) (add_failed 1 t))
        × (w'.connected ≡ false)
        × (sent_before w'.log later ≡ sent_before w.log (refusal file rest e later))
  unfolding circuit_open
  visit-refusal file rest t w e rounds later closed off more few =
      let up = transport_uploader files dial_client in
      let w1 = (poll_context (around process) up ep opts w).0 in
      let w2 = (upload_file (around process) up ep opts file w1).0 in
      let (same, failures, polled) = poll_context-kept w in
      let (failed, refused) =
        upload_file-IsRefused process files dial_client ep opts context reachable direct file w1 e
          rounds closed (same ∙ off) more in
      let (n, kept, events) = abandon-given_up e rest w2 later in
      let open_yet : circuit_open (around process) up ep opts w1 ≡ false =
        ap (λ k. leb_ℤ ep.max_consecutive_connect_failures (pos k)) failures ∙ few in
      let visited =
        visit-permanent file rest t w (wrap "upload: " e) (poll_context-calm w) open_yet failed
          refused.permanent in
      (
        ap (λ x. x.2) visited,
        ap (λ x. x.1) visited ∙ ap (λ k. add_failed k (add_failed 1 t)) n,
        ap (λ x. x.0.connected) visited ∙ (kept ∙ refused.unconnected),
        ap (λ x. sent_before x.0.log later) visited
            ∙ (events ∙ (refused.events (given_up ep e rest ++ later) ∙ polled _)),
      )

  run-visited :
      (file : String) (rest : List String) (w : Worker (Adapted W))
      → let up = transport_uploader files dial_client in
        let (w1, start) = read_clock (around process) up ep opts w in
        let (w2, t, stop) =
          visit (around process) up ep opts file rest (record { succeeded = 0; failed = 0 }) w1 in
        stop ≡ true
        → w2.connected ≡ false
        → (elapsed : ℤ) × (sent (run (around process) up ep opts (file ∷ rest) w).log
            ≡ sent_before w2.log (endpoint_done ep.name t.succeeded t.failed elapsed ∷ []))
  unfolding run visit_all read_clock disconnect
  run-visited file rest w stopped off =
      let up = transport_uploader files dial_client in
      let (w1, start) = read_clock (around process) up ep opts w in
      let w2 =
        (visit (around process) up ep opts file rest (record { succeeded = 0; failed = 0 }) w1).0 in
      let end = (read_clock (around process) up ep opts w2).1 in
      (sub_ℕ end start, ground (arith, stopped, off))

  -- Without a delete-first, on an endpoint of any protocol: if the first file of a batch may not be
  -- opened here, for lack of permission, each dial succeeds, the context is never cancelled, and the
  -- endpoint has an attempt for a file and tolerates a failed connect, then the run reports one
  -- attempt, on that file, with its error, gives up on all the other files with that error, if there are
  -- any, and ends with no file succeeded and all failed. No server had a part in the error.
  pub run-abandoned :
      (file : String) (rest : List String) (world : Adapted W) (e : Err)
      → IsUnreadable files file e
      → 1 ≤ pos_part ep.attempts
      → 1 ≤ pos_part ep.max_consecutive_connect_failures
      → (elapsed : ℤ) × (sent
            (run
              (around process)
              (transport_uploader files dial_client)
              ep
              opts
              (file ∷ rest)
              (new_worker world)).log
          ≡ file_start ep.name file 1
            ∷ file_error ep.name file 1 (message (wrap "upload: " e)) (wrap "upload: " e)
            ∷ (given_up ep e rest ++ endpoint_done ep.name 0 (length (file ∷ rest)) elapsed ∷ []))
  unfolding new_worker read_clock
  run-abandoned file rest world e closed some_attempt some_failure =
      let up = transport_uploader files dial_client in
      let w = new_worker world in
      let w1 = (read_clock (around process) up ep opts w).0 in
      let none_yet : Tally = record { succeeded = 0; failed = 0 } in
      let (rounds, more) = suc_of (pos_part ep.attempts) some_attempt in
      let few = tolerant ep.max_consecutive_connect_failures some_failure in
      let (stopped, counted, off, events) =
        visit-refusal file rest none_yet w1 e rounds [] closed refl more few in
      let (elapsed, sent_all) = run-visited file rest w stopped off in
      let total : 0 + 1 + length rest ≡ length (file ∷ rest) = omega arith in
      let last = endpoint_done ep.name 0 (length (file ∷ rest)) elapsed in
      let w2 = (visit (around process) up ep opts file rest none_yet w1).0 in
      let reported : sent_before w2.log (last ∷ []) ≡ refusal file rest e (last ∷ []) =
        (visit-refusal file rest none_yet w1 e rounds (last ∷ []) closed refl more few).3 in
      (
        elapsed,
        sent_all
            ∙ (ap
                  (λ (t : Tally).
                    sent_before w2.log (endpoint_done ep.name t.succeeded t.failed elapsed ∷ []))
                  counted
                ∙ (ap (λ n. sent_before w2.log (endpoint_done ep.name 0 n elapsed ∷ [])) total
                    ∙ reported)),
      )
