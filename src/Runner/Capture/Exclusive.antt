-- ===== src/Runner/Capture/Exclusive.antt =====
-- govc/govc_runner.go: two calls of `captureOutputFlagStdout`, of which at most one stands between
-- reading the old standard output and restoring it.
use bosh_esxi_cpi_release.Prelude.{ℕ, ◌≡◌, refl, Bool, true, false, arith}
use bosh_esxi_cpi_release.Runner.Capture.{
  Pc, start, saving, swapping, flagging, reading, restoring, checking, panicked, Shared, step,
}
use bosh_esxi_cpi_release.Runner.Capture.Race.{System, Step, main_moves, task_moves, both_start}

-- Between reading the old standard output and restoring it.
abbrev pub inside : Pc → Bool
inside (swapping p old) = true
inside (flagging p old) = true
inside (reading p old) = true
inside (restoring p old out) = true
inside _ = false

abbrev pub IsExclusive : System → Type 0
IsExclusive s = inside s.main ≡ true → inside s.task ≡ false

-- Steps that keep to it.
pub data Exclusively (s : System) : System → Type 0 where
  begins : IsExclusive s → Exclusively s s
  goes_on : {t u : System} → Exclusively s t → Step t u → IsExclusive u → Exclusively s u

-- What a call's local variables say, where `o` is the standard output at the beginning.
abbrev Fits : ℕ → Pc → ℕ → Type 0
Fits o (swapping p old) out = (old ≡ o) × (out ≡ o)
Fits o (flagging p old) out = (old ≡ o) × (out ≡ p)
Fits o (reading p old) out = (old ≡ o) × (out ≡ p)
Fits o (restoring p old seen) out = (old ≡ o) × (out ≡ p) × (seen ≡ p)
Fits o (checking p seen) out = seen ≡ p
Fits o panicked out = ⊥
Fits o _ out = Unit

-- One call moves, and the other waits outside or the mover stays outside.
advance :
    (o : ℕ) (pc other : Pc) (g : Shared)
    → Fits o pc g.stdout
    → Fits o other g.stdout
    → (inside pc ≡ false → inside other ≡ false → g.stdout ≡ o)
    → (inside pc ≡ true → inside other ≡ false)
    → (inside (step pc g).0 ≡ true → inside other ≡ false)
    → Fits o (step pc g).0 (step pc g).1.stdout
      × Fits o other (step pc g).1.stdout
      × (inside (step pc g).0 ≡ false → inside other ≡ false → (step pc g).1.stdout ≡ o)
unfolding step
advance o start other g f k q e e' = ground arith
advance o (saving p) other g f k q e e' = ground arith
advance o (swapping p old) other g f k q e e' = ground arith
advance o _ other g f k q e e' = ground arith

record Inv (o : ℕ) (s : System) : Type 0 where
  main_fits : Fits o s.main s.shared.stdout
  task_fits : Fits o s.task s.shared.stdout
  kept : inside s.main ≡ false → inside s.task ≡ false → s.shared.stdout ≡ o

flip : (b c : Bool) → (b ≡ true → c ≡ false) → c ≡ true → b ≡ false
flip b c h e = ground arith

Step-Inv : {o : ℕ} {s t : System} → Step s t → IsExclusive s → IsExclusive t → Inv o s → Inv o t
Step-Inv {o} (main_moves s) x y v =
    let (f, k, q) = advance o s.main s.task s.shared v.main_fits v.task_fits v.kept x y in
    record { main_fits = f; task_fits = k; kept = q }
Step-Inv {o} (task_moves s) x y v =
    let (f, k, q) =
      advance o s.task s.main s.shared v.task_fits v.main_fits (λ p q. v.kept q p) (flip _ _ x)
        (flip _ _ y) in
    record { main_fits = k; task_fits = f; kept = λ p r. q r p }

last-IsExclusive : {s t : System} → Exclusively s t → IsExclusive t
last-IsExclusive (begins x) = x
last-IsExclusive (goes_on r st x) = x

Exclusively-Inv : {g : Shared} {t : System} → Exclusively (both_start g) t → Inv g.stdout t
Exclusively-Inv (begins x) = record { main_fits = tt; task_fits = tt; kept = λ _ _. refl }
Exclusively-Inv (goes_on r st y) = Step-Inv st (last-IsExclusive r) y (Exclusively-Inv r)

Fits-panicked : (o out : ℕ) (pc : Pc) → Fits o pc out → ¬ (pc ≡ panicked)
Fits-panicked o out start f e = cc
Fits-panicked o out panicked f e = f
Fits-panicked o out _ f e = cc

-- Of two calls of `captureOutputFlagStdout` that are never both between reading the old standard output and restoring it, none
-- panics, and whenever neither stands there, standard output is what it was at the beginning.
pub exclusive_calls :
    (g : Shared) {t : System}
    → Exclusively (both_start g) t
    → (¬ (t.main ≡ panicked))
      × (¬ (t.task ≡ panicked))
      × (inside t.main ≡ false → inside t.task ≡ false → t.shared.stdout ≡ g.stdout)
exclusive_calls g {t} r =
    let v = Exclusively-Inv r in
    (
      Fits-panicked g.stdout t.shared.stdout t.main v.main_fits,
      Fits-panicked g.stdout t.shared.stdout t.task v.task_fits,
      v.kept,
    )
