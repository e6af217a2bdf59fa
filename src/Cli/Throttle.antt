-- ===== src/Cli/Throttle.antt =====
-- cmd/uploadfun/printer.go: the state and the arithmetic by which progress lines are throttled.
use uploadfun.Base.{
  ℕ, ◌+◌, ◌-◌, ◌*◌, ◌/◌, ◌%◌, ◌^◌, ℤ, pos, negsuc, sub_ℕ, ltb, ltb_ℤ, nat_eq, String, ◌<>◌, ◌==◌,
  Bool, false, List, [], ◌∷◌, Option, none, some, if◌then◌else◌,
}
use uploadfun.Upload.{second}

abbrev pub progress_percent_step : ℕ
progress_percent_step = 10

abbrev pub progress_min_interval : ℕ
progress_min_interval = second

-- `last_printed` is `none` for the zero time.
pub record ProgressState : Type 0 where
  pub last_percent : ℤ
  pub last_printed : Option ℕ

abbrev pub fresh : ProgressState
fresh = record { last_percent = negsuc 0; last_printed = none }

-- A map from `progressKey` to the state, the latest write first.
abbrev pub ProgressMap : Type 0
ProgressMap = List (String × ProgressState)

unfoldable pub find_progress : String → ProgressMap → Option ProgressState
find_progress key [] = none
find_progress key ((k, st) ∷ m) = if k == key then some st else find_progress key m

unfoldable pub delete_progress : String → ProgressMap → ProgressMap
delete_progress key [] = []
delete_progress key ((k, st) ∷ m) =
    let rest = delete_progress key m in if k == key then rest else (k, st) ∷ rest

abbrev pub put_progress : String → ProgressState → ProgressMap → ProgressMap
put_progress key st m = (key, st) ∷ m

unfoldable pub progress_key : (endpoint file : String) → String
progress_key endpoint file = endpoint <> "\0" <> file

-- An int64 product, as Go has it.
unfoldable pub wrap64 : ℕ → ℤ
wrap64 n = let m = n % 2 ^ 64 in if ltb m (2 ^ 63) then pos m else negsuc (2 ^ 64 - 1 - m)

abbrev neg_ℕ : ℕ → ℤ
neg_ℕ n = sub_ℕ 0 n

-- Division by a positive number, towards zero, and the multiple of the step below it towards zero.
unfoldable pub quot : ℤ → ℕ → ℤ
quot (pos a) d = pos (a / d)
quot (negsuc a) d = neg_ℕ ((a + 1) / d)

unfoldable pub bucket_of : ℤ → ℤ
bucket_of (pos p) = pos (p - p % progress_percent_step)
bucket_of (negsuc p) = neg_ℕ (p + 1 - (p + 1) % progress_percent_step)

abbrev pub eq_ℤ : ℤ → ℤ → Bool
eq_ℤ (pos a) (pos b) = nat_eq a b
eq_ℤ (negsuc a) (negsuc b) = nat_eq a b
eq_ℤ _ _ = false

unfoldable pub percent_of : (sent total : ℕ) → ℤ
percent_of sent total = if ltb 0 total then quot (wrap64 (sent * 100)) total else pos 100

abbrev pub state_or_fresh : Option ProgressState → ProgressState
state_or_fresh none = fresh
state_or_fresh (some st) = st

-- The line was printed less than the interval ago.
unfoldable pub is_recent : Option ℕ → ℕ → Bool
is_recent none now = false
is_recent (some last) now = ltb_ℤ (sub_ℕ now last) (pos progress_min_interval)
