-- ===== src/Trace/Printing.antt =====
-- src/trace.rs: printing does not panic.
use optee_utee.Prelude.{ℕ, ◌≡◌, refl, List, [], ◌∷◌, returns}
use optee_utee.Error.{ok}
use optee_utee.Trace.{Call, utee_log, write_fmt, print}

-- The calls behind the pieces, latest first.
abbrev logged : List (List ℕ) → List Call → List Call
logged [] h = h
logged (piece ∷ pieces) h = logged pieces (utee_log piece ∷ h)

write_fmt-logged :
    (pieces : List (List ℕ)) (h : List Call) → write_fmt pieces h ≡ (ok tt, logged pieces h)
unfolding write_fmt
write_fmt-logged [] h = refl
write_fmt-logged (piece ∷ pieces) h = write_fmt-logged pieces (utee_log piece ∷ h)

-- Each piece is one message, in order, and no message panics.
print-logged : (pieces : List (List ℕ)) (h : List Call) → print pieces h ≡ returns (logged pieces h)
unfolding print
print-logged pieces h = rw (write_fmt-logged pieces h) refl
