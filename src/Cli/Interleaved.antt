-- ===== src/Cli/Interleaved.antt =====
-- cmd/uploadfun/main.go: flags and paths in any order.
use mathlib.Core.List.{append-nil}
use uploadfun.Base.{
  ℕ, zero, suc, ◌≤◌, ◌≡◌, refl, String, ◌==◌, Bool, true, false, List, [], ◌∷◌, ◌++◌, All, length,
  some, arith, ◌⊎◌, inl, inr,
}
use uploadfun.Cli.Flags.{
  CliOptions, no_options, FlagError, FlagResult, parsed, failed, FlagStep, stop_at, stop_behind,
  reject, await_value, go_on, parse_one, parse_flags, parse_rounds, cut_at_mark, add_trailing,
  parse_interleaved,
}

-- The three ways in which a parse of flags can end.
parsed_cases :
    (r : FlagResult (CliOptions × List String))
    → ((e : FlagError) × (r ≡ failed e))
      ⊎ (((o : CliOptions) × (r ≡ parsed (o, [])))
          ⊎ ((o : CliOptions) × (first : String) × (rest : List String) × (r
                ≡ parsed (o, first ∷ rest))))
parsed_cases (failed e) = inl (e, refl)
parsed_cases (parsed (o, [])) = inr (inl (o, refl))
parsed_cases (parsed (o, first ∷ rest)) = inr (inr (o, first, rest, refl))

-- What is left after the flags is no longer than what was given.
abbrev Shortens : List String → Type 0
Shortens args =
    (waits : Bool) (o o1 : CliOptions) (rest : List String)
    → parse_flags waits args o ≡ parsed (o1, rest)
    → length rest ≤ length args

Shortens-word :
    (word : String) (args : List String)
    → Shortens args
    → (step : FlagStep) (o o1 : CliOptions) (rest : List String) → parse_one word o ≡ step
    → parse_flags false (word ∷ args) o ≡ parsed (o1, rest)
    → length rest ≤ suc (length args)
unfolding parse_flags
Shortens-word word args ih stop_at o o1 rest e h = ground arith
Shortens-word word args ih stop_behind o o1 rest e h = ground arith
Shortens-word word args ih (reject x) o o1 rest e h = ground arith
Shortens-word word args ih await_value o o1 rest e h = ground (arith, ih true o o1 rest)
Shortens-word word args ih (go_on o2) o o1 rest e h = ground (arith, ih false o2 o1 rest)

Shortens-all : (args : List String) → Shortens args
unfolding parse_flags
Shortens-all [] true o o1 rest h = cc
Shortens-all [] false o o1 rest h = ground arith
Shortens-all (value ∷ args) true o o1 rest h =
    ground (arith, Shortens-all args false (record o { config_path = value }) o1 rest h)
Shortens-all (word ∷ args) false o o1 rest h =
    Shortens-word word args (Shortens-all args) (parse_one word o) o o1 rest refl h

-- The loop has enough rounds in the number of words.
parse_rounds-total :
    (fuel : ℕ) (args positionals : List String) (o : CliOptions)
    → length args ≤ fuel
    → (r : FlagResult (CliOptions × List String)) × (parse_rounds fuel args positionals o ≡ some r)
unfolding parse_rounds
parse_rounds-total fuel [] positionals o h = (parsed (o, positionals), refl)
parse_rounds-total zero (word ∷ args) positionals o h = absurd (omega arith)
parse_rounds-total (suc fuel) (word ∷ args) positionals o h =
    elim (parsed_cases (parse_flags false (word ∷ args) o)) [
      | inl (e, bad) ↦ (failed e, rw (bad, parse_rounds))
      | inr (inl (o1, done)) ↦ (parsed (o1, positionals), rw (done, parse_rounds))
      | inr (inr (o1, first, rest, more)) ↦
          let shorter : length (first ∷ rest) ≤ suc (length args) =
            Shortens-all (word ∷ args) false o o1 (first ∷ rest) more in
          let (r, ends) =
            parse_rounds-total fuel rest (positionals ++ (first ∷ [])) o1 (omega arith) in
          (r, rw (more, parse_rounds) ends)
    ]

FlagResult-cases :
    {A : Type 0} (r : FlagResult A)
    → ((e : FlagError) × (r ≡ failed e)) ⊎ ((a : A) × (r ≡ parsed a))
FlagResult-cases (failed e) = inl (e, refl)
FlagResult-cases (parsed a) = inr (a, refl)

pub cut_at_mark-append :
    (args trailing : List String)
    → All (λ (word : String). (word == "--") ≡ false) args
    → cut_at_mark (args ++ "--" ∷ trailing) ≡ (args, trailing)
unfolding cut_at_mark
cut_at_mark-append [] trailing h = refl
cut_at_mark-append (word ∷ args) trailing (h, hs) =
    ground (arith, h, cut_at_mark-append args trailing hs)

cut_at_mark-none :
    (args : List String)
    → All (λ (word : String). (word == "--") ≡ false) args
    → cut_at_mark args ≡ (args, [])
unfolding cut_at_mark
cut_at_mark-none [] h = refl
cut_at_mark-none (word ∷ args) (h, hs) = ground (arith, h, cut_at_mark-none args hs)

-- Every command line is parsed to a result: the rounds that the loop is given are enough.
pub parse_interleaved-total :
    (args : List String)
    → (r : FlagResult (CliOptions × List String)) × (parse_interleaved args ≡ some r)
unfolding parse_interleaved
parse_interleaved-total args =
    let (before, trailing) = cut_at_mark args in
    let (r, done) = parse_rounds-total (length before) before [] no_options (omega arith) in
    (add_trailing trailing r, ground (arith, done))

-- What stands behind the first `--` is taken as it is, also where it begins with a dash: if the words
-- before it are refused by themselves, so is the whole, with the same error; and if they lead to some
-- options and paths, the whole leads to the same options, and to these paths with the words behind the
-- mark after them. One of the two is the case.
pub parse_interleaved-mark :
    (args trailing : List String)
    → All (λ (word : String). (word == "--") ≡ false) args
    → let marked = args ++ "--" ∷ trailing in
      ((e : FlagError) × (parse_interleaved args ≡ some (failed e))
        × (parse_interleaved marked ≡ some (failed e)))
      ⊎ ((o : CliOptions) × (paths : List String) × (parse_interleaved args
            ≡ some (parsed (o, paths)))
          × (parse_interleaved marked ≡ some (parsed (o, paths ++ trailing))))
unfolding parse_interleaved
parse_interleaved-mark args trailing h =
    let (r, done) = parse_rounds-total (length args) args [] no_options (omega arith) in
    let before = cut_at_mark-none args h in
    let cut = cut_at_mark-append args trailing h in
    elim (FlagResult-cases r) [
      | inl (e, is) ↦ inl (e, ground (arith, before, done, is), ground (arith, cut, done, is))
      | inr ((o, paths), is) ↦ inr (
        o,
        paths,
        ground (arith, before, done, is, append-nil paths),
        ground (arith, cut, done, is),
      )
    ]
