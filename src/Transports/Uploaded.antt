-- ===== src/Transports/Uploaded.antt =====
-- dispatch.go, transports.go and internal/transport together: what it takes that a file is reported as
-- uploaded.
use uploadfun.Base.{
  ℕ, ◌≡◌, refl, sym, ap, ◌∙◌, String, true, false, List, [], ◌∷◌, none, some, Result-cases, inl,
  inr, arith,
}
use uploadfun.Base.Text.{base}
use uploadfun.Upload.{Endpoint, Options, file_start}
use uploadfun.Dispatch.Effects.{Process, Worker, emit}
use uploadfun.Dispatch.Worker.{
  settled, emit_progress, read_clock, delete_existing, send, confirm, transfer, try_transfer,
}
use uploadfun.Transports.Adapter.{
  RemoteClient, LocalFiles, Adapted, Dial, delete_remote, verify_remote, upload_open, upload_local,
  transport_uploader, around,
}

emit_progress-world :
    {W : Type 0} (name file : String) (steps : List (ℕ × ℕ)) (w : Worker W)
    → (emit_progress name file steps w).world ≡ w.world
unfolding emit_progress
emit_progress-world name file [] w = refl
emit_progress-world name file ((sent, total) ∷ steps) w = emit_progress-world name file steps _

module _ {W : Type 0} (files : LocalFiles W) (client : RemoteClient W) where
  -- The client was given the file, took all of it and confirmed it; `last` is the world then.
  pub record IsConfirmed (file remote : String) (last : W) : Type 0 where
    pub before : W
    pub size : ℕ
    pub sent : (client.upload remote file size before).1 ≡ none
    pub confirmed :
        (client.verify file remote
          (files.close_file file (client.upload remote file size before).2)).1
        ≡ none
    pub ends :
        (client.verify file remote
          (files.close_file file (client.upload remote file size before).2)).2
        ≡ last

  upload_local-none :
      (file remote : String) (u : Adapted W)
      → u.client ≡ some client
      → (upload_local files file remote u).1 ≡ none
      → (before : W) × (size : ℕ) × ((client.upload remote file size before).1 ≡ none)
        × ((upload_local files file remote u).2.client ≡ some client)
        × ((upload_local files file remote u).2.world
            ≡ files.close_file file (client.upload remote file size before).2)
  unfolding upload_local upload_open
  upload_local-none file remote u live h =
      let world1 = (files.open_file file u.world).1 in
      elim (Result-cases (files.stat_size file world1).0) [
        | inl (e, unknown) ↦ absurd (ground (arith, unknown, h))
        | inr (size, known) ↦
            let before = (files.stat_size file world1).1 in
            (
              before,
              size,
              ground (arith, known, h, live),
              ground (arith, known, h, live),
              ground (arith, known, h, live),
            )
      ]

  verify_remote-none :
      (file remote : String) (u : Adapted W)
      → u.client ≡ some client
      → ((verify_remote file remote u).1 ≡ (client.verify file remote u.world).1)
        × ((verify_remote file remote u).2.world ≡ (client.verify file remote u.world).2)
  unfolding verify_remote
  verify_remote-none file remote u live = ground (arith, live)

module _ {W : Type 0} (process : Process W) (files : LocalFiles W) (dial_client : Dial W)
    (client : RemoteClient W) where
  delete_existing-client :
      (ep : Endpoint) (opts : Options) (remote : String) (w : Worker (Adapted W))
      → w.world.client ≡ some client
      → (delete_existing
          (around process)
          (transport_uploader files dial_client)
          ep
          opts
          remote
          w).0.world.client
        ≡ some client
  unfolding delete_existing transport_uploader delete_remote
  delete_existing-client ep opts remote w live = ground (arith, live)

  read_clock-client :
      (ep : Endpoint) (opts : Options) (w : Worker (Adapted W))
      → w.world.client ≡ some client
      → (read_clock
          (around process)
          (transport_uploader files dial_client)
          ep
          opts
          w).0.world.client
        ≡ some client
  unfolding read_clock around
  read_clock-client ep opts w live = live

  module _ (ep : Endpoint) (opts : Options) where
    send-none :
        (file remote : String) (w : Worker (Adapted W))
        → w.world.client ≡ some client
        → let (w', err) =
            send (around process) (transport_uploader files dial_client) ep opts file remote w in
          err ≡ none
          → (before : W) × (size : ℕ) × ((client.upload remote file size before).1 ≡ none)
            × (w'.world.client ≡ some client)
            × (w'.world.world ≡ files.close_file file (client.upload remote file size before).2)
    unfolding send transport_uploader
    send-none file remote w live h =
        let (steps, err, u) = upload_local files file remote w.world in
        let (before, size, sent, kept, closed) =
          upload_local-none files client file remote w.world live h in
        let same = emit_progress-world ep.name file steps (record w { world = u }) in
        (before, size, sent, ap (λ x. x.client) same ∙ kept, ap (λ x. x.world) same ∙ closed)

    transfer-none :
        (file remote : String) (w : Worker (Adapted W))
        → opts.no_verify ≡ false
        → let up = transport_uploader files dial_client in
          let w1 = (delete_existing (around process) up ep opts remote w).0 in
          let (w2, sent) = send (around process) up ep opts file remote w1 in
          let (w3, method, checked) = confirm (around process) up ep opts file remote w2 in
          let (w', m, err) = transfer (around process) up ep opts file remote w in
          err ≡ none → (sent ≡ none) × (checked ≡ none) × (w' ≡ w3)
    unfolding transfer
    transfer-none file remote w verified h = ground (arith, verified, h)

    confirm-none :
        (file remote : String) (w : Worker (Adapted W))
        → w.world.client ≡ some client
        → let (w', method, err) =
            confirm (around process) (transport_uploader files dial_client) ep opts file remote w in
          (err ≡ (client.verify file remote w.world.world).1)
          × (w'.world.world ≡ (client.verify file remote w.world.world).2)
    unfolding confirm transport_uploader
    confirm-none file remote w live = verify_remote-none files client file remote w.world live

    transfer-IsConfirmed :
        (file remote : String) (w : Worker (Adapted W))
        → w.world.client ≡ some client
        → opts.no_verify ≡ false
        → let (w', m, err) =
            transfer
              (around process)
              (transport_uploader files dial_client)
              ep
              opts
              file
              remote
              w in
          err ≡ none → IsConfirmed files client file remote w'.world.world
    transfer-IsConfirmed file remote w live verified h =
        let up = transport_uploader files dial_client in
        let w1 = (delete_existing (around process) up ep opts remote w).0 in
        let w2 = (send (around process) up ep opts file remote w1).0 in
        let (sent, checked, same) = transfer-none file remote w verified h in
        let live1 = delete_existing-client ep opts remote w live in
        let (before, size, taken, kept, at) = send-none file remote w1 live1 sent in
        let (verdict, last) = confirm-none file remote w2 kept in
        record {
          before = before;
          size = size;
          sent = taken;
          confirmed = ap (λ x. (client.verify file remote x).1) (sym at) ∙ (sym verdict ∙ checked);
          ends =
              ap (λ x. (client.verify file remote x).2) (sym at)
              ∙ (sym last ∙ ap (λ x. x.world.world) (sym same));
        }

    try_transfer-settled :
        (file : String) (attempt : ℕ) (w : Worker (Adapted W))
        → let up = transport_uploader files dial_client in
          let w1 =
            (read_clock (around process) up ep opts (emit (file_start ep.name file attempt) w)).0 in
          let (w2, m, err) = transfer (around process) up ep opts file (base file) w1 in
          let (w', v) = try_transfer (around process) up ep opts file attempt w in
          v ≡ settled true → (err ≡ none) × (w'.world.world ≡ (process.now w2.world.world).1)
    unfolding try_transfer read_clock around
    try_transfer-settled file attempt w h = ground (arith, h)

    -- An attempt that succeeds leaves the world in which the clock was read after the client had
    -- confirmed the file.
    pub try_transfer-IsConfirmed :
        (file : String) (attempt : ℕ) (w : Worker (Adapted W))
        → w.world.client ≡ some client
        → opts.no_verify ≡ false
        → let (w', v) =
            try_transfer
              (around process)
              (transport_uploader files dial_client)
              ep
              opts
              file
              attempt
              w in
          v ≡ settled true
          → (last : W) × IsConfirmed files client file (base file) last
            × (w'.world.world ≡ (process.now last).1)
    try_transfer-IsConfirmed file attempt w live verified h =
        let up = transport_uploader files dial_client in
        let w0 = emit (file_start ep.name file attempt) w in
        let w1 = (read_clock (around process) up ep opts w0).0 in
        let (done, last) = try_transfer-settled file attempt w h in
        let live1 = read_clock-client ep opts w0 live in
        (_, transfer-IsConfirmed file (base file) w1 live1 verified done, last)
