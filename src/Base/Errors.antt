-- ===== src/Base/Errors.antt =====
-- Go's `error`: a root error with its text, wrapped by `fmt.Errorf("text: %w", err)` any number of
-- times, or joined by `errors.Join`. The kinds are those that the program asks for with `errors.Is`
-- and `errors.As`.
use Prim.Native.Nat.{ℕ}
use Prim.Native.String.{String, ◌++◌}
use mathlib.Core.Path.{◌≡◌, refl}
use mathlib.Core.Logic.{◌⊎◌, inl, inr}
use mathlib.Core.Bool.{Bool, true, false, ◌||◌}

pub data ErrKind : Type 0 where
  permission not_exist canceled passphrase_missing help other : ErrKind
  reply : ℕ → ErrKind

pub data Err : Type 0 where
  root : ErrKind → String → Err
  wrap : String → Err → Err
  join : Err → Err → Err

-- `err.Error()`
unfoldable pub message : Err → String
message (root kind text) = text
message (wrap text e) = text ++ message e
message (join a b) = message a ++ ("\n" ++ message b)

abbrev is_permission_kind : ErrKind → Bool
is_permission_kind permission = true
is_permission_kind _ = false

-- `errors.Is(err, os.ErrPermission)`
unfoldable pub is_permission : Err → Bool
is_permission (root kind text) = is_permission_kind kind
is_permission (wrap text e) = is_permission e
is_permission (join a b) = is_permission a || is_permission b

-- A Go pair `(A, error)` of which one is set.
pub data Result {ℓ} (A : Type ℓ) : Type ℓ where
  ok : A → Result A
  fail : Err → Result A

pub Result-cases {ℓ} :
    {A : Type ℓ} (r : Result A) → ((e : Err) × (r ≡ fail e)) ⊎ ((a : A) × (r ≡ ok a))
Result-cases (ok a) = inr (a, refl)
Result-cases (fail e) = inl (e, refl)
