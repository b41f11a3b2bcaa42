-- ===== src/Runner/FlagSet/Positional.antt =====
-- govc/govc_runner.go: arguments of `CliCommand` that are no flags.
use text.Mathlib.TextEquality.{Char-path}
use Prim.Native.Char.{code}
use bosh_esxi_cpi_release.Prelude.{
  ◌≢◌, ◌==◌, ◌<>◌, String, none, some, List, [], ◌∷◌, ◌≡◌, refl, sym, ap, ◌∙◌, arith, Bool-cases,
  inl, inr,
}
use text.Mathlib.TextLemmas.{nil-append, cons-append}
use bosh_esxi_cpi_release.Go.World.{Flags}
use bosh_esxi_cpi_release.Runner.FlagSet.{FlagSet, Setting, set, set_all, parse, shape, positional}
use bosh_esxi_cpi_release.Runner.Command.{Command, flags_of}

with_args : FlagSet → List String → FlagSet
with_args s l = record s { args = l }

set_all-with_args :
    (setting : Setting) (flags : Flags) (s : FlagSet) (l : List String)
    → set_all setting flags (with_args s l) ≡ with_args (set_all setting flags s) l
unfolding set_all with_args
set_all-with_args setting [] s l = refl
set_all-with_args setting ((k, v) ∷ flags) s l =
    set_all-with_args setting flags (set setting k v s) l

parse-positional :
    (setting : Setting) (a : String) (rest : List String) (s : FlagSet)
    → shape a ≡ positional
    → parse setting (a ∷ rest) s ≡ with_args s (a ∷ rest)
unfolding parse with_args
parse-positional setting a [] s first = rw (first, parse) refl
parse-positional setting a (b ∷ rest) s first = rw (first, parse) refl

shape-positional : (a : String) → ((tail : String) → a ≢ "-" <> tail) → shape a ≡ positional
unfolding shape
shape-positional String.[] plain = refl
shape-positional (String.◌∷◌ c s) plain = elim (Bool-cases (code c == b'-')) [
  | inr other ↦ rw (shape, other) refl
  | inl dash ↦
      let is_dash : c ≡ "-" = Char-path c "-" (ground (arith, dash)) in
      absurd (
        plain s
          (rw is_dash (sym (cons-append "-" "" s ∙ ap (λ t. String.◌∷◌ "-" t) (nil-append s)))))
]

-- Arguments whose first does not begin with a dash reach the command as they are, whatever stands
-- after the first, and change no flag's value: the flags are as without arguments.
pub flags_of-positional :
    (c : Command) (flags : Flags) (a : String) (rest : List String)
    → ((tail : String) → a ≢ "-" <> tail)
    → flags_of c flags (some (a ∷ rest)) ≡ record (flags_of c flags none) { args = a ∷ rest }
unfolding flags_of with_args
flags_of-positional c flags a rest plain =
    ap (set_all c.setting flags) (parse-positional c.setting a rest _ (shape-positional a plain))
    ∙ set_all-with_args c.setting flags _ (a ∷ rest)
