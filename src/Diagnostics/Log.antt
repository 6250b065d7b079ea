-- ===== src/Diagnostics/Log.antt =====
-- Sequences of warnings and errors, and the lines that a stream gets of them:
-- src/infra/diagnostics.cpp.
use mathlib.Core.List
use text.Mathlib.TextLemmas.{append_assoc, append-nil}
use abys.Prelude.{String, Option, some, none, List, [], ◌∷◌, ◌++◌, ◌≡◌, refl, ap}
use abys.Diagnostics.{
  print, level_prefix, Diagnostics, DiagnosticLevel, DiagnosticId, Entry, error_level,
  warning_level, warning, error, format, ◌<>◌,
}

-- the calls of `warning` and `error`, one after the other
pub put : DiagnosticLevel → DiagnosticId → String → Diagnostics → Diagnostics
put warning_level id detail d = warning id detail d
put error_level id detail d = error id detail d

pub log : List Entry → Diagnostics → Diagnostics
log [] d = d
log (e ∷ rest) d = log rest (put e.level e.id e.detail d)

-- The line that the stream has of an entry, and the lines of a list.
pub line : DiagnosticLevel → DiagnosticId → String → String
line warning_level id detail =
    "warning: " <> (format (record { level = warning_level; id = id; detail = detail }) <> "\n")
line error_level id detail =
    "error: " <> (format (record { level = error_level; id = id; detail = detail }) <> "\n")

pub lines : List Entry → String
lines [] = ""
lines (e ∷ rest) = line e.level e.id e.detail <> lines rest

pub written : Option String → String → Option String
written none text = none
written (some before) text = some (before <> text)

pub log-append : (xs ys : List Entry) (d : Diagnostics) → log (xs ++ ys) d ≡ log ys (log xs d)
unfolding log
log-append [] ys d = refl
log-append (x ∷ xs) ys d = log-append xs ys (put x.level x.id x.detail d)

pub log-nil : (d : Diagnostics) → log [] d ≡ d
unfolding log
log-nil d = refl

pub log-warning :
    (id : DiagnosticId) (detail : String) (d : Diagnostics)
    → log (record { level = warning_level; id = id; detail = detail } ∷ []) d ≡ warning id detail d
unfolding log put
log-warning id detail d = refl

written-nil : (output : Option String) → written output "" ≡ output
unfolding written
written-nil none = refl
written-nil (some before) = ap some (append-nil before)

written-append :
    (output : Option String) (s t : String) → written (written output s) t ≡ written output (s <> t)
unfolding written
written-append none s t = refl
written-append (some before) s t = ap some (append_assoc before s t)

put_lem :
    (level : DiagnosticLevel) (id : DiagnosticId) (detail : String) (output : Option String)
    (entries : List Entry)
    → put level id detail (record { output = output; entries = entries }) ≡ record {
      output = written output (line level id detail);
      entries = entries ++ record { level = level; id = id; detail = detail } ∷ [];
    }
unfolding put warning error print level_prefix line written
put_lem warning_level id detail none entries = refl
put_lem warning_level id detail (some before) entries = refl
put_lem error_level id detail none entries = refl
put_lem error_level id detail (some before) entries = refl

-- Any sequence of warnings and errors leaves the earlier entries as they are and adds its own, in
-- order; a stream gets exactly their lines behind what it has, and without a stream nothing is
-- written.
pub log_lem :
    (entries : List Entry) (d : Diagnostics)
    → log entries d
      ≡ record { output = written d.output (lines entries); entries = d.entries ++ entries }
unfolding log lines
log_lem [] d = rw (written-nil d.output, List.append-nil d.entries) refl
log_lem (e ∷ rest) d =
    rw
      (
        put_lem e.level e.id e.detail d.output d.entries,
        log_lem rest _,
        written-append d.output (line e.level e.id e.detail) (lines rest),
        List.append_assoc d.entries (e ∷ []) rest,
      )
      refl
