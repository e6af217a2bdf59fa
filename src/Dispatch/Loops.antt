-- ===== src/Dispatch/Loops.antt =====
-- dispatch.go: the two loops of the worker, as rules. What each round keeps, the loop keeps.
use uploadfun.Base.{ℕ, zero, suc, ◌+◌, String, List, [], ◌∷◌, arith}
use uploadfun.Upload.{Endpoint, Options}
use uploadfun.Dispatch.Effects.{Uploader, Process, Worker}
use uploadfun.Dispatch.Worker.{Tally, attempt_once, upload_attempts, visit, visit_all}

module _ {ℓ} {W : Type 0} (process : Process W) (up : Uploader W) (ep : Endpoint) (opts : Options)
    (P : Worker W → Type ℓ) where
  pub upload_attempts-keeps :
      ((file : String) (attempt : ℕ) (w : Worker W)
        → P w
        → P (attempt_once process up ep opts file attempt w).0)
      → (rounds attempt : ℕ) (file : String) (w : Worker W) → P w
      → P (upload_attempts process up ep opts rounds attempt file w).0
  unfolding upload_attempts
  upload_attempts-keeps keep zero attempt file w p = p
  upload_attempts-keeps keep (suc rounds) attempt file w p =
      let w1 = (attempt_once process up ep opts file attempt w).0 in
      ground (arith, keep file attempt w p, upload_attempts-keeps keep rounds (attempt + 1) file w1)

  pub visit_all-keeps :
      ((file : String) (rest : List String) (t : Tally) (w : Worker W)
        → P w
        → P (visit process up ep opts file rest t w).0)
      → (files : List String) (t : Tally) (w : Worker W) → P w
      → P (visit_all process up ep opts files t w).0
  unfolding visit_all
  visit_all-keeps keep [] t w p = p
  visit_all-keeps keep (file ∷ rest) t w p =
      let (w1, t1, stop) = visit process up ep opts file rest t w in
      ground (arith, keep file rest t w p, visit_all-keeps keep rest t1 w1)
