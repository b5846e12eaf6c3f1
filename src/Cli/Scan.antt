-- ===== src/Cli/Scan.antt =====
-- main.go: the loop of `parseSubcommand` against a reading of the arguments in one pass.
use miniscram.Common.{
  ℕ, zero, suc, ◌≤◌, ◌≡◌, refl, ◌∙◌, ap, none, some, List, [], ◌∷◌, length, ok, err, arith,
}
use miniscram.Cli.Flags.{
  FlagSet, Setting, set_text, needs_argument, Reading, stops, stops_behind, fails, sets, awaits,
  read_flag, setting_then, parse_on, parse_from, parse,
}
use miniscram.Cli.Args.{Read, peeled, peel_on, peel, arguments}

-- What the next argument is taken for: anything, a flag's value, or a positional argument.
pub data Mode : Type 0 where
  reading taking : Mode
  awaiting : List ℕ → Mode

unfoldable pub scan_on : Reading → List ℕ → Read → Read → (List ℕ → Read) → Read
unfolding peeled setting_then
scan_on stops s rest behind with_value = peeled [] s rest
scan_on stops_behind s rest behind with_value = behind
scan_on (fails e) s rest behind with_value = err e
scan_on (sets x) s rest behind with_value = setting_then x rest
scan_on (awaits name) s rest behind with_value = with_value name

unfoldable pub scan : FlagSet → Mode → List (List ℕ) → Read
unfolding read_flag scan_on setting_then peeled
scan fs (awaiting name) [] = err (needs_argument name)
scan fs reading [] = ok ([], [])
scan fs taking [] = ok ([], [])
scan fs (awaiting name) (v ∷ args) = setting_then (set_text name v) (scan fs reading args)
scan fs taking (p ∷ args) = peeled [] p (scan fs reading args)
scan fs reading (s ∷ args) =
    let rest = scan fs reading args in
    let behind = scan fs taking args in
    scan_on (read_flag fs s) s rest behind (λ (name : List ℕ). scan fs (awaiting name) args)

-- What one `fs.Parse` leaves to do in a mode.
unfoldable pub left : FlagSet → Mode → List (List ℕ) → Read
unfolding parse_from
left fs reading args = parse_from fs none args
left fs taking args = ok ([], args)
left fs (awaiting name) args = parse_from fs (some name) args

peeled-cons :
    (x : Setting) (xs : List Setting) (p : List ℕ) (r : Read)
    → peeled (x ∷ xs) p r ≡ setting_then x (peeled xs p r)
unfolding peeled setting_then
peeled-cons x xs p (err e) = refl
peeled-cons x xs p (ok (ys, ps)) = refl

peel_on-setting_then :
    (again : List (List ℕ) → Read) (x : Setting) (r : Read)
    → peel_on again (setting_then x r) ≡ setting_then x (peel_on again r)
unfolding peel_on setting_then
peel_on-setting_then again x (err e) = refl
peel_on-setting_then again x (ok (xs, [])) = refl
peel_on-setting_then again x (ok (xs, p ∷ rest)) = peeled-cons x xs p (again rest)

peel_on-parse_on :
    (rounds : ℕ) (fs : FlagSet) (rd : Reading) (s : List ℕ) (args : List (List ℕ))
    → peel rounds fs args ≡ scan fs reading args
    → ((m : Mode) → peel_on (peel rounds fs) (left fs m args) ≡ scan fs m args)
    → peel_on (peel rounds fs) (
        parse_on rd s args
          (parse_from fs none args)
          (λ (name : List ℕ). parse_from fs (some name) args))
      ≡ scan_on rd s
          (scan fs reading args)
          (scan fs taking args)
          (λ (name : List ℕ). scan fs (awaiting name) args)
unfolding parse_on scan_on peel_on left peeled
peel_on-parse_on rounds fs stops s args now h = ap (peeled [] s) now
peel_on-parse_on rounds fs stops_behind s args now h = h taking
peel_on-parse_on rounds fs (fails e) s args now h = refl
peel_on-parse_on rounds fs (sets x) s args now h =
    peel_on-setting_then (peel rounds fs) x (parse_from fs none args)
    ∙ ap (setting_then x) (h reading)
peel_on-parse_on rounds fs (awaits name) s args now h = h (awaiting name)

peel_on-left :
    (rounds : ℕ) (fs : FlagSet) (m : Mode) (args : List (List ℕ))
    → length args ≤ rounds
    → peel_on (peel rounds fs) (left fs m args) ≡ scan fs m args
unfolding left scan parse_from peel_on peel parse
peel_on-left rounds fs (awaiting name) [] h = refl
peel_on-left rounds fs reading [] h = refl
peel_on-left rounds fs taking [] h = refl
peel_on-left rounds fs (awaiting name) (v ∷ args) h =
    peel_on-setting_then (peel rounds fs) (set_text name v) (parse_from fs none args)
    ∙ ap (setting_then (set_text name v)) (peel_on-left rounds fs reading args (omega arith))
peel_on-left zero fs taking (p ∷ args) h = absurd (omega arith)
peel_on-left (suc rounds) fs taking (p ∷ args) h =
    ap (peeled [] p) (peel_on-left rounds fs reading args (omega arith))
peel_on-left zero fs reading (p ∷ args) h = absurd (omega arith)
peel_on-left (suc rounds) fs reading (s ∷ args) h =
    peel_on-parse_on (suc rounds) fs (read_flag fs s) s args
      (peel_on-left rounds fs reading args (omega arith))
      (λ (m : Mode). peel_on-left (suc rounds) fs m args (omega arith))

-- The loop of `parseSubcommand` ends within its rounds, and it reads the arguments as one pass
-- does, in which an argument is positional if it is no flag and no flag's value, or stands right
-- behind `--`, wherever it stands among the flags.
pub arguments-scan :
    (fs : FlagSet) (args : List (List ℕ)) → arguments fs args ≡ scan fs reading args
unfolding arguments peel parse left
arguments-scan fs args = peel_on-left (length args) fs reading args (omega arith)
