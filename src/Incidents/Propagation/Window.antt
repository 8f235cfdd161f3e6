-- ===== src/Incidents/Propagation/Window.antt =====
-- The propagation window of a fact, and what joining an incident does to its propagation.
use cairnops.Common.{ℕ, ◌+◌, ◌*◌, ◌≤◌, ◌≡◌, ◌⊎◌, arith}
use cairnops.Domain.Source.{second}
use cairnops.Incidents.Schema.{Incident, Tables, EvidenceFact}
use cairnops.Incidents.Propagation.{window_seconds, cadence_seconds, evidence_window, extended_row}

-- The window of any fact lies between 60 and 300 seconds; within those bounds it covers twice the
-- cadence of its source or connector and its evaluation window, and is one of the two.
pub evidence_window_bounds :
    (t : Tables) (fact : EvidenceFact)
    → let w = evidence_window t fact in
      (60 ≤ w)
      × (w ≤ 300)
      × ((cadence_seconds t fact * 2 ≤ w) ⊎ (w ≡ 300))
      × ((window_seconds fact.evaluation_window ≤ w) ⊎ (w ≡ 300))
      × ((w ≡ 60)
          ⊎ ((w ≡ 300)
              ⊎ ((w ≡ cadence_seconds t fact * 2) ⊎ (w ≡ window_seconds fact.evaluation_window))))
unfolding evidence_window
evidence_window_bounds t fact = ground arith

-- Joining never moves the end of a propagation back, and afterwards its end lies at least the
-- window, and the incident's own, after the last impact and after the one that joins.
extended_row-ends_at :
    (now at window : ℕ) (i : Incident)
    → let j = extended_row now at window i in
      (i.propagation_ends_at ≤ j.propagation_ends_at)
      × (at + window * second ≤ j.propagation_ends_at)
      × (i.last_impact_at + i.propagation_window_seconds * second ≤ j.propagation_ends_at)
unfolding extended_row
extended_row-ends_at now at window i = omega arith
