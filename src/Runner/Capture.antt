-- ===== src/Runner/Capture.antt =====
-- govc/govc_runner.go: `captureOutputFlagStdout`, which swaps the process's `os.Stdout` for the
-- writing end of a new pipe while govc's output flag is made, and swaps it back. A goroutine may
-- run between any two of its statements. Files are numbers; 0 is the process's own standard output.
pub mod Race
pub mod Exclusive
use bosh_esxi_cpi_release.Prelude.{ℕ, ◌+◌, ◌==◌, if◌then◌else◌}

-- The next statement of a call, with the local variables that are set.
pub data Pc : Type 0 where
  start : Pc
  saving : ℕ → Pc  -- the pipe is made
  swapping : ℕ → ℕ → Pc  -- pipe, old
  flagging : ℕ → ℕ → Pc
  reading : ℕ → ℕ → Pc
  restoring : ℕ → ℕ → ℕ → Pc  -- pipe, old, output flag's file
  checking : ℕ → ℕ → Pc
  returned : ℕ → Pc
  panicked : Pc

-- What the calls share: the variable `os.Stdout`, and the number of the next file.
pub record Shared : Type 0 where
  pub stdout : ℕ
  pub next : ℕ

-- One statement.
unfoldable pub step : Pc → Shared → Pc × Shared
step start g = (saving g.next, record g { next = g.next + 1 })
step (saving p) g = (swapping p g.stdout, g)
step (swapping p old) g = (flagging p old, record g { stdout = p })
step (flagging p old) g = (reading p old, g)
step (reading p old) g = (restoring p old g.stdout, g)
step (restoring p old out) g = (checking p out, record g { stdout = old })
step (checking p out) g = (if out == p then returned p else panicked, g)
step (returned p) g = (returned p, g)
step panicked g = (panicked, g)
