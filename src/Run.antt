-- ===== src/Run.antt =====
-- The end of code that may panic: of a task, of a call, of a program.
use conreg.Prelude.{String}

-- A task's or a call's end: a value, an error, or a panic.
pub data Run (T : Type 0) : Type 0 where
  returned : T → Run T
  failed : String → Run T
  panicked : Run T

abbrev pub and_then : {S T : Type 0} → Run S → (S → Run T) → Run T
and_then (Run.returned x) f = f x
and_then (Run.failed e) f = Run.failed e
and_then Run.panicked f = Run.panicked

-- `unwrap`
abbrev pub unwrap : {T : Type 0} → Run T → Run T
unwrap (Run.returned x) = Run.returned x
unwrap (Run.failed e) = Run.panicked
unwrap Run.panicked = Run.panicked
