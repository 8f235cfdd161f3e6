-- ===== src/Incidents/Store/Local.antt =====
-- A user's acknowledgement in internal/incidents/store.go: who came first stays.
use mathlib.Core.Option
use cairnops.Common.{ℕ}
use cairnops.Incidents.Schema.{Tables}

-- The tables of a later transaction, which finds the rows as they were left.
abbrev pub at_time : ℕ → Tables → Tables
at_time later t = record t { now = later }
