-- ===== src/Collect/Failures.antt =====
-- internal/collect/scheduler.go, failureLog: a module's first failure with a reason is a warning,
-- and its repeats are counted until they are reported.
use omnistat.Prelude.{
  ℕ, zero, suc, ◌+◌, Bytes, bytes_eq, bytes_eq_iff, bytes_Eq, Map, lookup, insert, remove,
  lookup-insert, List, [], ◌∷◌, Option, none, some, ◌≡◌, ◌∙◌, arith, if◌then◌else◌,
}

pub record FailureLog : Type 0 where
  pub reason : Map Bytes Bytes
  pub streak : Map Bytes ℕ
  pub pending : Map Bytes ℕ

unfoldable pub no_failures : FailureLog
no_failures = record { reason = []; streak = []; pending = [] }

-- What a call writes to the log, with the number it shows.
pub data Logged : Type 0 where
  warning : Logged
  repeated recovered : ℕ → Logged
  silent : Logged

abbrev pub or_zero : Option ℕ → ℕ
or_zero none = 0
or_zero (some n) = n

abbrev or_blank : Option Bytes → Bytes
or_blank none = []
or_blank (some s) = s

unfoldable pub failed : Bytes → Bytes → FailureLog → Logged × FailureLog
failed name reason f =
    let n = or_zero (lookup name f.streak) + 1 in
    if bytes_eq (or_blank (lookup name f.reason)) reason
    then (
      repeated n,
      record f {
        streak = insert name n f.streak;
        pending = insert name (or_zero (lookup name f.pending) + 1) f.pending;
      },
    )
    else (
      warning,
      record f { streak = insert name n f.streak; reason = insert name reason f.reason },
    )

unfoldable pub succeeded : Bytes → FailureLog → Logged × FailureLog
succeeded name f = (
  elim (or_zero (lookup name f.streak)) [ zero ↦ silent | suc n ↦ recovered (suc n) ],
  record f { streak = remove name f.streak; reason = remove name f.reason },
)

unfoldable pub take : FailureLog → Map Bytes ℕ × FailureLog
take f = (f.pending, record f { pending = [] })

-- What happens to the log between two publishes and at them.
pub data Event : Type 0 where
  failure : Bytes → Bytes → Event
  success : Bytes → Event
  report : Event

-- What was told of one module: its warnings, and the repeats that `take` returned.
pub record Told : Type 0 where
  pub warnings : ℕ
  pub repeats : ℕ

count_warning : Logged → ℕ
count_warning warning = 1
count_warning _ = 0

unfoldable pub happen : Bytes → Event → FailureLog × Told → FailureLog × Told
unfolding count_warning
happen name (failure m reason) (f, told) =
    let (l, f') = failed m reason f in
    (
      f',
      record told { warnings = told.warnings + (if bytes_eq m name then count_warning l else 0) },
    )
happen name (success m) (f, told) = ((succeeded m f).1, told)
happen name report (f, told) =
    let (counts, f') = take f in
    (f', record told { repeats = told.repeats + or_zero (lookup name counts) })

unfoldable pub happen_all : Bytes → List Event → FailureLog × Told → FailureLog × Told
unfolding happen
happen_all name [] x = x
happen_all name (e ∷ es) x = happen_all name es (happen name e x)

failure_of : Bytes → Event → ℕ
failure_of name (failure m reason) = if bytes_eq m name then 1 else 0
failure_of name _ = 0

unfoldable pub failures_of : Bytes → List Event → ℕ
unfolding failure_of
failures_of name [] = 0
failures_of name (e ∷ es) = failure_of name e + failures_of name es

happen-told :
    (name : Bytes) (e : Event) (f : FailureLog) (told : Told)
    → let (f', told') = happen name e (f, told) in
      told'.warnings + (told'.repeats + or_zero (lookup name f'.pending))
      ≡ failure_of name e + (told.warnings + (told.repeats + or_zero (lookup name f.pending)))
unfolding happen failure_of failed succeeded take count_warning lookup
happen-told name (failure m reason) f told =
    ground (
      arith,
      lookup-insert m name (or_zero (lookup m f.pending) + 1) f.pending,
      bytes_eq_iff m name,
    )
happen-told name (success m) f told = ground arith
happen-told name report f told = ground arith

told_lem :
    (name : Bytes) (es : List Event) (f : FailureLog) (told : Told)
    → let (f', told') = happen_all name es (f, told) in
      told'.warnings + (told'.repeats + or_zero (lookup name f'.pending))
      ≡ failures_of name es + (told.warnings + (told.repeats + or_zero (lookup name f.pending)))
unfolding happen_all failures_of
told_lem name [] f told = omega arith
told_lem name (e ∷ es) f told =
    let next = happen name e (f, told) in
    omega (arith, told_lem name es next.0 next.1, happen-told name e f told)

-- Every failure of a module is told once, as a warning or in the counts that are reported or still
-- pending.
pub all_told :
    (name : Bytes) (es : List Event)
    → let (f, told) = happen_all name es (no_failures, record { warnings = 0; repeats = 0 }) in
      told.warnings + (told.repeats + or_zero (lookup name f.pending)) ≡ failures_of name es
all_told name es =
    told_lem name es no_failures (record { warnings = 0; repeats = 0 })
    ∙ (unfold no_failures lookup in omega arith)
