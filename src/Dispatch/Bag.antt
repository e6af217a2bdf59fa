-- ===== src/Dispatch/Bag.antt =====
-- dispatch.go: the events of a run without their order, in which the goroutines have a say.
use mathlib.Core.Quot
use mathlib.Core.Quot.{Quot, Quot-set}
use native.Mathlib.Nat.{ℕ_set}
use uploadfun.Base.{ℕ, ◌≡◌, sym, ◌∙◌, String, Bool, List, count, Result}
use uploadfun.Upload.{Endpoint, Options, Protocol, UploadEvent}
use uploadfun.Dispatch.Effects.{Uploader, Process}
use uploadfun.Dispatch.Fan.{Delivered}
use uploadfun.Dispatch.Stream.{count-Shuffles}

-- Two sequences have the same events, as often: no test counts more in one than in the other.
abbrev pub SameEvents : List UploadEvent → List UploadEvent → Type 0
SameEvents xs ys = (p : UploadEvent → Bool) → count p xs ≡ count p ys

abbrev pub EventBag : Type 0
EventBag = Quot SameEvents

-- How many events of a bag pass a test.
unfoldable pub number_of : (UploadEvent → Bool) → EventBag → ℕ
number_of p = Quot.lift ℕ_set (count p) (λ xs ys h. h p)

module _ {W : Type 0} (process : Process W) (new_uploader : Protocol → Result (Uploader W))
    (opts : Options) (files : List String) where
  -- Whatever the order in which the goroutines send, the same events are delivered.
  pub Delivered-bag :
      (endpoints : List (Endpoint × W)) {first second : List UploadEvent}
      → Delivered process new_uploader opts files endpoints first
      → Delivered process new_uploader opts files endpoints second
      → ◌≡◌ {A = EventBag} (Quot.mk first) (Quot.mk second)
  Delivered-bag endpoints d e = Quot.sound (λ p. count-Shuffles p d ∙ sym (count-Shuffles p e))
