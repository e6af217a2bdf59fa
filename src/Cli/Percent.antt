-- ===== src/Cli/Percent.antt =====
-- cmd/uploadfun/printer.go: the percentage of `percentOf` and its bucket.
use native.Mathlib.Nat.{
  le-div_iff_mul-le, div-mul-le_self, div-le_of_le-mul, le_trans, div-lt_iff_lt-mul,
}
use uploadfun.Base.{ℕ, ◌*◌, ◌/◌, ◌^◌, ◌≤◌, ◌<◌, ◌≡◌, ap, pos, total, arith, ltb, if◌then◌else◌}
use uploadfun.Cli.Throttle.{wrap64, quot, bucket_of, percent_of}

-- The percentage, as a natural number.
abbrev pub percent : (sent total : ℕ) → ℕ
percent sent total = if ltb 0 total then sent * 100 / total else 100

pub percent_of-percent :
    (sent total : ℕ)
    → sent ≤ total
    → total * 100 < 2 ^ 63
    → percent_of sent total ≡ pos (percent sent total)
unfolding percent_of quot wrap64
percent_of-percent sent total h k = ground arith

div_mono : (n m k : ℕ) → 0 < k → n ≤ m → n / k ≤ m / k
div_mono n m k h le = (le-div_iff_mul-le h).1 (le_trans (div-mul-le_self n k) le)

pub percent_mono : (sent later total : ℕ) → sent ≤ later → percent sent total ≤ percent later total
percent_mono sent later total h =
    ground (arith, λ (k : 0 < total). div_mono (sent * 100) (later * 100) total k (omega arith))

pub percent_le : (sent total : ℕ) → sent ≤ total → percent sent total ≤ 100
percent_le sent total h =
    ground (arith, div-le_of_le-mul total {m = sent * 100} {n = 100} (omega arith))

pub percent_lt : (sent total : ℕ) → sent < total → percent sent total < 100
percent_lt sent total h =
    ground
      (arith, λ (k : 0 < total). (div-lt_iff_lt-mul {x = sent * 100} {y = 100} k).1 (omega arith))

pub percent_full : (total : ℕ) → 100 ≤ percent total total
percent_full total =
    ground
      (arith, λ (k : 0 < total). (le-div_iff_mul-le {x = 100} {y = total * 100} k).1 (omega arith))

pub bucket_of-pos : (n : ℕ) → bucket_of (pos n) ≡ pos (10 * (n / 10))
unfolding bucket_of
bucket_of-pos n = ap pos (omega arith)
