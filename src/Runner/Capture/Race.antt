-- ===== src/Runner/Capture/Race.antt =====
-- govc/govc_runner.go: `captureOutputFlagStdout` in one call after another, and in two calls at once,
-- as `StartVM` makes them from its loop and from its goroutine.
use bosh_esxi_cpi_release.Prelude.{List, [], ◌∷◌, ℕ, zero, suc, ◌+◌, ◌≡◌, refl, arith}
use bosh_esxi_cpi_release.Runner.Capture.{Pc, start, returned, panicked, Shared, step}

-- So many statements of one call.
abbrev pub steps : ℕ → Pc × Shared → Pc × Shared
steps zero s = s
steps (suc n) (pc, g) = steps n (step pc g)

-- Calls one after another.
abbrev pub calls : ℕ → Shared → Shared
calls zero g = g
calls (suc n) g = calls n (steps 7 (start, g)).1

-- A call that nothing interrupts ends after seven statements with its own pipe, and with standard
-- output as it was; it never panics.
pub step_alone :
    (g : Shared) → steps 7 (start, g) ≡ (returned g.next, record g { next = g.next + 1 })
unfolding step
step_alone g = ground arith

-- Any number of calls, one after another, leave standard output as it was.
pub calls-stdout : (n : ℕ) (g : Shared) → (calls n g).stdout ≡ g.stdout
calls-stdout zero g = refl
calls-stdout (suc n) g = ground (arith, step_alone g, calls-stdout n (calls 1 g))

-- Two calls at once. The scheduler picks the one that moves.
pub record System : Type 0 where
  pub main : Pc
  pub task : Pc
  pub shared : Shared

pub data Step : System → System → Type 0 where
  main_moves :
      (s : System)
      → Step s (record s { main = (step s.main s.shared).0; shared = (step s.main s.shared).1 })
  task_moves :
      (s : System)
      → Step s (record s { task = (step s.task s.shared).0; shared = (step s.task s.shared).1 })

pub data Reach (s : System) : System → Type 0 where
  here : Reach s s
  next : {t u : System} → Reach s t → Step t u → Reach s u

pub data Mover : Type 0 where
  main_call task_call : Mover

abbrev pub move : Mover → System → System
move main_call s = record s { main = (step s.main s.shared).0; shared = (step s.main s.shared).1 }
move task_call s = record s { task = (step s.task s.shared).0; shared = (step s.task s.shared).1 }

-- The moves, the first of them last.
abbrev pub run : List Mover → System → System
run [] s = s
run (m ∷ ms) s = move m (run ms s)

move-Step : (m : Mover) (s : System) → Step s (move m s)
move-Step main_call s = main_moves s
move-Step task_call s = task_moves s

pub run-Reach : (ms : List Mover) (s : System) → Reach s (run ms s)
run-Reach [] s = here
run-Reach (m ∷ ms) s = next (run-Reach ms s) (move-Step m (run ms s))

abbrev pub both_start : Shared → System
both_start g = record { main = start; task = start; shared = g }

-- The second call swaps standard output before the first has read it back.
abbrev pub overlapping : List Mover
overlapping =
    main_call ∷ main_call ∷ main_call ∷ task_call ∷ task_call ∷ task_call ∷ main_call ∷ main_call
    ∷ main_call ∷ main_call ∷ []

-- From any state two calls may interleave so that one of them panics.
pub race_panics : (g : Shared) → (t : System) × Reach (both_start g) t × (t.main ≡ panicked)
unfolding step
race_panics g = (run overlapping (both_start g), run-Reach overlapping (both_start g), ground arith)

-- The second call saves the first one's pipe as its old standard output.
abbrev pub staggered : List Mover
staggered =
    task_call ∷ task_call ∷ task_call ∷ task_call ∷ task_call ∷ main_call ∷ main_call ∷ main_call
    ∷ main_call ∷ task_call ∷ task_call ∷ main_call ∷ main_call ∷ main_call ∷ []

-- From any state two calls may interleave so that both of them return, and standard output is left
-- at the first call's pipe.
pub race_leaks :
    (g : Shared)
    → (t : System) × Reach (both_start g) t
      × (t.main ≡ returned g.next)
      × (t.task ≡ returned (g.next + 1))
      × (t.shared.stdout ≡ g.next)
unfolding step
race_leaks g = (
  run staggered (both_start g),
  run-Reach staggered (both_start g),
  ground arith,
  ground arith,
  refl,
)
