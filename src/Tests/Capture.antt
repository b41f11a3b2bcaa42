-- ===== src/Tests/Capture.antt =====
-- Calls that capture standard output, from a process that has opened three files.
use bosh_esxi_cpi_release.Prelude.{◌≡◌, refl, false}
use bosh_esxi_cpi_release.Runner.Capture.{Shared, returned, panicked, step, start}
use bosh_esxi_cpi_release.Runner.Capture.Race.{
  System, Reach, both_start, race_panics, race_leaks, main_moves,
}
use bosh_esxi_cpi_release.Runner.Capture.Exclusive.{
  Exclusively, begins, goes_on, inside, exclusive_calls,
}

abbrev fresh : Shared
fresh = record { stdout = 0; next = 3 }

race_panics_example : (t : System) × Reach (both_start fresh) t × (t.main ≡ panicked)
race_panics_example = race_panics fresh

race_leaks_example :
    (t : System) × Reach (both_start fresh) t
    × (t.main ≡ returned 3)
    × (t.task ≡ returned 4)
    × (t.shared.stdout ≡ 3)
race_leaks_example = race_leaks fresh

abbrev moved : System
moved = record { main = (step start fresh).0; task = start; shared = (step start fresh).1 }

one_step : Exclusively (both_start fresh) moved
unfolding step
one_step = goes_on (begins (λ _. refl)) (main_moves (both_start fresh)) (λ _. refl)

exclusive_calls_example :
    (¬ (moved.main ≡ panicked))
    × (¬ (moved.task ≡ panicked))
    × (inside moved.main ≡ false → inside moved.task ≡ false → moved.shared.stdout ≡ 0)
exclusive_calls_example = exclusive_calls fresh one_step
