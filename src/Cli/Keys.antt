-- ===== src/Cli/Keys.antt =====
-- cmd/uploadfun/printer.go: the keys of the progress map are as good as pairs.
use Prim.Native.Char.{code}
use text.Mathlib.TextLemmas.{cons-append, nil-append}
use text.Mathlib.TextEquality.{eq_iff}
use uploadfun.Base.{
  ◌≡◌, refl, sym, ap, ◌∙◌, String, ◌<>◌, ◌==◌, Bool, true, false, not, ◌&&◌, [], ◌∷◌, arith, nat_eq,
}
use uploadfun.Cli.Throttle.{ProgressMap, find_progress, delete_progress, progress_key}

abbrev pub has_no_nul : String → Bool
has_no_nul String.[] = true
has_no_nul (String.◌∷◌ c s) = not (nat_eq (code c) 0) && has_no_nul s

-- The texts before and behind the first NUL.
cut_at_nul : String → String × String
cut_at_nul String.[] = ("", "")
cut_at_nul (String.◌∷◌ c s) =
    let (before, behind) = cut_at_nul s in
    elim (nat_eq (code c) 0) [ true ↦ ("", s) | false ↦ (String.◌∷◌ c before, behind) ]

nul-append : (s : String) → "\0" <> s ≡ String.◌∷◌ "\0" s
nul-append s = rw (cons-append, nil-append) refl

cut_at_nul-append :
    (endpoint file : String)
    → has_no_nul endpoint ≡ true
    → cut_at_nul (endpoint <> ("\0" <> file)) ≡ (endpoint, file)
unfolding cut_at_nul
cut_at_nul-append String.[] file h = rw (nil-append, nul-append) refl
cut_at_nul-append (String.◌∷◌ c s) file h =
    rw cons-append (ground (arith, h, cut_at_nul-append s file))

-- Two keys are equal only if endpoint and file are, where the names of endpoints have no NUL.
pub progress_key-eq :
    (e1 f1 e2 f2 : String)
    → has_no_nul e1 ≡ true
    → has_no_nul e2 ≡ true
    → progress_key e1 f1 ≡ progress_key e2 f2
    → (e1 ≡ e2) × (f1 ≡ f2)
unfolding progress_key
progress_key-eq e1 f1 e2 f2 h1 h2 same =
    let pairs =
      sym (cut_at_nul-append e1 f1 h1) ∙ ap cut_at_nul same ∙ cut_at_nul-append e2 f2 h2 in
    (ap (λ p. p.0) pairs, ap (λ p. p.1) pairs)

pub find_progress-delete :
    (key other : String) (m : ProgressMap)
    → (other == key) ≡ false
    → find_progress key (delete_progress other m) ≡ find_progress key m
unfolding find_progress delete_progress
find_progress-delete key other [] h = refl
find_progress-delete key other ((k, st) ∷ m) h =
    ground (arith, eq_iff k other, eq_iff k key, eq_iff other key, find_progress-delete key other m)
