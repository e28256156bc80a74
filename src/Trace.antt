-- ===== src/Trace.antt =====
-- src/trace.rs: messages to the trace of the system. The formatted arguments are the
-- pieces of text that the standard library's `write_fmt` writes one after the other.
pub mod Printing
use optee_utee.Prelude.{ℤ, ℕ, List, [], ◌∷◌, ◌++◌, Outcome, returns, panics}
use optee_utee.Error.{Result, ok, err}

pub data Call : Type 0 where
  utee_log : List ℕ → Call
  trace_set_level : ℤ → Call
  trace_get_level : Call

-- `core::fmt::Error`.
pub data FormatError : Type 0 where
  format_error : FormatError

-- `Write for Trace`.
unfoldable pub write_str : List ℕ → List Call → Result FormatError (Unit {0}) × List Call
write_str buf h = (ok tt, utee_log buf ∷ h)

-- The pieces are written up to the first that fails.
unfoldable pub write_fmt : List (List ℕ) → List Call → Result FormatError (Unit {0}) × List Call
unfolding write_str
write_fmt [] h = (ok tt, h)
write_fmt (piece ∷ pieces) h =
    let (result, h') = write_str piece h in
    let rest = write_fmt pieces h' in elim result [ ok u ↦ rest | err e ↦ (err e, h') ]

abbrev unless_failed : Result FormatError (Unit {0}) × List Call → Outcome (List Call)
unless_failed (ok u, h) = returns h
unless_failed (err e, h) = panics

-- `Trace::_print`.
unfoldable pub print : List (List ℕ) → List Call → Outcome (List Call)
unfolding write_fmt
print pieces h = unless_failed (write_fmt pieces h)

unfoldable pub set_level : ℤ → List Call → List Call
set_level level h = trace_set_level level ∷ h

unfoldable pub get_level : (List Call → ℤ) → List Call → ℤ × List Call
get_level tee h = (tee (trace_get_level ∷ h), trace_get_level ∷ h)
