-- ===== src/Tests/Cycle.antt =====
-- Runs of internal/incidents at concrete tables, and the theorems applied to them.
use cairnops.Common.{
  ◌||◌, ◌++◌, map, ◌≢◌, arith, ℕ, ◌*◌, ◌≤◌, ◌≡◌, ◌⊎◌, refl, true, false, not, ◌&&◌, Option, none,
  some, List, [], ◌∷◌, String, ◌==◌, All, length, select, find?, exists, IsKeyed, if◌then◌else◌,
}
use cairnops.Common.Int.{pos}
use cairnops.Common.Result.{Result, ok, err}
use cairnops.Domain.Trigger.{Outcome}
use cairnops.AlertText.{no_fact}
use cairnops.Incidents.Schema.{
  Impact, Severity, Origin, Target, Connector, SignalSource, Tables, EvidenceFact, EvidenceSnapshot,
  Incident, Evidence,
}
use cairnops.Incidents.Native.{canonical_nature, NativeObservation}
use cairnops.Incidents.Snapshot.{Touched, awaits_recovery, evidence_identity, is_seen}
use cairnops.Incidents.Store.{Plan}
use cairnops.Incidents.Apply.{Applied, active_evidence}
use cairnops.Incidents.Propagation.{window_seconds}
use cairnops.Incidents.Recompute.{is_taken}
use cairnops.Incidents.Resumption.{Ensured, resolved_or_zero}
use cairnops.Incidents.Resumption.Recent.{IsRow, IsRecent, resume_recent_incident-IsRecent}
use cairnops.Incidents.Recompute.Checks.{IsDerived, recompute_incident-IsDerived}
use cairnops.Incidents.Recompute.Due.{advance_due_incidents-none_due}
use cairnops.Incidents.Propagation.Window.{evidence_window_bounds}
use cairnops.Incidents.Ensure.Checks.{AreChecked}
use cairnops.Incidents.Snapshot.Accounted.{IsMissing, apply_evidence_snapshot-accounts}
use cairnops.Incidents.Snapshot.Sweep.{sweep-find?}
use cairnops.Incidents.Snapshot.Checks.{apply_evidence_snapshot-AreChecked}
use cairnops.Incidents.Native.Outcomes.{
  apply_native_observation-AreChecked, apply_native_observation-unknown,
}
use cairnops.Incidents.Owned.Released.{resolve_for_archived_target-releases}
use cairnops.Incidents.Store.Muted.{IsOnlyActive, OpensNothing, invalidate_evidence-OpensNothing}
use cairnops.Common.Text.{
  is_space, is_blank, text_ltb, trim_left, trim_right, rune_count, cut_bytes,
}
use cairnops.AlertText.{same_kind, bounded, versioned, normalize, impairs_functioning, common}
use cairnops.Domain.Trigger.{evaluate}
use cairnops.Incidents.Schema.{severity_rank, valid_severity, same_severity, same_origin}
use cairnops.Incidents.Rows.{highest_from, highest, append_activity, resolve_evidence_row}
use cairnops.Incidents.Presentation.{shared_kind, refresh_incident_presentation}
use cairnops.Incidents.Acknowledgement.{
  left, string_agg, desired_status, desired_error, recompute_acknowledgement,
  acknowledged_by_connector, acknowledge_row, inherit_acknowledgement, acknowledge_from_evidence,
}
use cairnops.Incidents.Recompute.{
  settle_impact, recompute_impact, derive_incident, write_derived, settle_incident,
  recompute_incident, recompute_incidents, advance_due_incidents,
}
use cairnops.Incidents.Propagation.{
  cadence_seconds, evidence_window, extended_row, extend_propagation,
}
use cairnops.Incidents.Resumption.{
  reopened_row, has_later, is_resumable, resumed_row, resume, resume_recent_incident,
}
use cairnops.Incidents.Ensure.{
  insert_impact, opened_row, insert_incident, is_current, is_propagating, join, open_incident,
  ensure_impact,
}
use cairnops.Incidents.Apply.{
  is_complete, same_identity, is_muted, see, refreshed_row, refresh, inserted_row, inherit, attach,
  apply_new, move, apply_existing, apply_evidence_fact,
}
use cairnops.Incidents.Snapshot.{
  identity, comes_before, insert_fact, sort_facts, lease_holds, note_applied, apply_facts,
  is_observed, resolve_absent, rearmed_row, rearm_recovered_evidence, recompute_impacts, sweep,
  observe, cycle, apply_evidence_snapshot, resolve_and_recompute, resolve_evidence,
}
use cairnops.Incidents.Native.{
  native_fact, is_native_evidence, recover_native_evidence, after_fact, persist_streaks, conclude,
  apply_native_observation,
}
use cairnops.Incidents.Store.{
  invalidated_row, invalidate_evidence, service_invalidate_evidence, acknowledged_by_user,
  queued_row, acknowledge_first, plan, acknowledge_local, completed_row, complete_one, complete_all,
  complete_acknowledgement, results_of, acknowledge,
}
use cairnops.Incidents.Signals.{uptime_kuma_fact, reconcile_uptime_kuma, reconcile_zabbix}
use cairnops.Incidents.Signals.Input.{UptimeKumaSignal, ZabbixSignal, ReconcileInput}
use cairnops.Incidents.Signals.Cleared.{
  IsUptimeKumaGone, reconcile_uptime_kuma-clears, IsZabbixGone, reconcile_zabbix-clears,
}
use cairnops.Incidents.Reassign.{
  is_reassigned, group_of, groups_from, split_impact, insert_split, destination_of, move_evidence,
  settle_original, reassign_one, reassign_each, group_incidents, reassign_source,
}
use cairnops.Incidents.Reassign.Gone.{reassign_source-moves}
use cairnops.Incidents.Merge.{
  candidate, candidates, move_impact, absorb_impact, merge_one, merge_each,
  touch_incident_structure, incident_ids, revise_each, merge_targets,
}
use cairnops.Incidents.Merge.Moved.{merge_targets-leaves_none}
use cairnops.Incidents.Owned.{
  resolve_each, ids_of, recompute_counted, resolve_owned_evidence_count, resolve_for_source_removal,
  resolve_for_connector_removal, resolve_for_archived_target,
}

abbrev host : Target
host = record { id = 1; archived_at = none }

abbrev zabbix_connector : Connector
zabbix_connector = record {
  id = 5;
  sync_interval_seconds = 30;
  disabled = false;
  lease_owner = "worker";
  lease_until = 900;
}

abbrev ping : SignalSource
ping = record {
  id = 7;
  interval_seconds = 60;
  policy = record { failure_threshold = 1; recovery_threshold = 1 };
  severity = Severity.critical;
  streaks = record { unhealthy = 0; healthy = 0 };
  updated_at = 0;
}

abbrev empty : Tables
empty = record {
  now = 100;
  next_id = 10;
  locked_elsewhere = [];
  targets = host ∷ [];
  sources = ping ∷ [];
  connectors = zabbix_connector ∷ [];
  incidents = [];
  impacts = [];
  evidence = [];
  activity = [];
}

abbrev disk_fact : EvidenceFact
disk_fact = record {
  alert = no_fact;
  origin = Origin.zabbix;
  connector_id = 5;
  binding_id = 6;
  source_id = 0;
  identity_scope = "a";
  identity_key = "b";
  target_id = 1;
  external_event_id = "e";
  external_object_id = "o";
  nature = canonical_nature "disk" "Disk";
  name = "Disk full";
  severity = Severity.major;
  opened_at = 50;
  upstream_acknowledged = false;
  evaluation_window = pos 0;
}

abbrev snapshot_of : List EvidenceFact → EvidenceSnapshot
snapshot_of fs = record {
  origin = Origin.zabbix;
  connector_id = 5;
  lease_owner = "worker";
  observed_at = 100;
  complete_connector = true;
  observed_scopes = [];
  facts = fs;
}

abbrev tables_of : Result Tables → Tables
tables_of (ok t) = t
tables_of (err e) = empty

-- The tables after a first snapshot opened an incident.
abbrev opened_tables : Tables
opened_tables = tables_of (apply_evidence_snapshot 100 empty (snapshot_of (disk_fact ∷ [])))

-- The tables after a second snapshot, without the fact.
abbrev closed_tables : Tables
closed_tables = tables_of (apply_evidence_snapshot 200 opened_tables (snapshot_of []))

abbrev native_down : NativeObservation
native_down = record {
  source_id = 7;
  target_id = 1;
  source_name = "ping";
  outcome = Outcome.unhealthy;
  observed_at = 100;
}

abbrev native_unknown : NativeObservation
native_unknown = record native_down { outcome = Outcome.unknown }

abbrev source_text : ℕ → String
source_text n = "source"

abbrev down_tables : Tables
down_tables = tables_of (apply_native_observation source_text 100 empty native_down)

abbrev silent_tables : Tables
silent_tables = tables_of (apply_native_observation source_text 100 opened_tables native_unknown)

abbrev muted_tables : Tables
muted_tables = tables_of (invalidate_evidence 150 opened_tables 10 12 3 "false alarm")

abbrev settled_tables : Tables
settled_tables = tables_of (recompute_incident opened_tables 10 300000000000)

abbrev archived_tables : Tables
archived_tables = tables_of (resolve_for_archived_target opened_tables 1 200)

-- The incident with a second impact, on target 2, and its merge with the first.
abbrev spread_tables : Tables
spread_tables = record opened_tables {
  impacts =
      opened_tables.impacts
      ++ map {B = Impact} (λ (i : Impact). record i { id = 90; target_id = 2 })
          opened_tables.impacts;
}

abbrev merged_of : Result (Tables × ℕ) → Tables × ℕ
merged_of (ok m) = m
merged_of (err e) = (empty, 0)

abbrev merged : Tables × ℕ
merged = merged_of (merge_targets spread_tables 2 1 200)

-- The control's evidence on target 2.
abbrev reassigned : Tables × ℕ
reassigned = merged_of (reassign_source down_tables 2 7 none 300)

abbrev applied_of : Result Applied → Applied
applied_of (ok a) = a
applied_of (err e) = record { tables = empty; incident_id = 0; impact_id = 0; archived = false }

abbrev applied : Applied
applied = applied_of (apply_evidence_fact opened_tables disk_fact 160)

abbrev plan_of : Result Plan → Plan
plan_of (ok p) = p
plan_of (err e) = record { tables = empty; targets = [] }

abbrev told : Plan
told = plan_of (acknowledge_local opened_tables 10 3)

abbrev opened_evidence : Evidence
opened_evidence = elim opened_tables.evidence [
  | [] ↦ inserted_row empty disk_fact 0 0 0
  | e ∷ es ↦ e
]

abbrev gathered : Touched
gathered = record { tables = opened_tables; seen = []; impacts = []; incidents = [] }

abbrev other_snapshot : EvidenceSnapshot
other_snapshot = record (snapshot_of []) { connector_id = 8 }

-- The tables once the propagation has closed and the fact is gone.
abbrev resolved_tables : Tables
resolved_tables = tables_of (
    apply_evidence_snapshot 200 opened_tables
      (record (snapshot_of []) { observed_at = 300000000000 }))

abbrev late_fact : EvidenceFact
late_fact = record disk_fact { opened_at = 301000000000 }

abbrev ensured_of : Option Ensured → Ensured
ensured_of (some s) = s
ensured_of none = record {
  tables = empty;
  incident_id = 0;
  impact_id = 0;
  created_incident = false;
  created_impact = false;
}

abbrev resumed : Ensured
resumed = ensured_of (resume_recent_incident resolved_tables late_fact 302000000000)

-- Another transaction holds the incident.
abbrev held_tables : Tables
held_tables = record opened_tables { locked_elsewhere = 10 ∷ [] }

abbrev kuma_text : ℕ → String
kuma_text n = if n == 6 then "six" else "other"

-- The monitor of binding 6 is down, and later it is not.
abbrev kuma_down : ReconcileInput UptimeKumaSignal
kuma_down = record {
  connector_id = 5;
  observed_at = 100;
  observed_bindings = 6 ∷ [];
  signals =
      (record {
        target_id = 1;
        binding_id = 6;
        external_monitor = "m";
        name = "web";
        severity = Severity.major;
      })
      ∷ [];
}

abbrev kuma_up : ReconcileInput UptimeKumaSignal
kuma_up = record kuma_down { signals = [] }

abbrev kuma_tables : Tables
kuma_tables = tables_of (reconcile_uptime_kuma kuma_text 100 empty kuma_down)

abbrev kuma_after : Tables
kuma_after = tables_of (reconcile_uptime_kuma kuma_text 200 kuma_tables kuma_up)

-- The connector of the opened evidence reports nothing any more.
abbrev zabbix_silent : ReconcileInput ZabbixSignal
zabbix_silent = record { connector_id = 5; observed_at = 100; observed_bindings = []; signals = [] }

abbrev zabbix_after : Tables
zabbix_after = tables_of (reconcile_zabbix kuma_text 200 opened_tables zabbix_silent)

-- What these runs give.
record Runs : Type 0 where
  opens : apply_evidence_snapshot 100 empty (snapshot_of (disk_fact ∷ [])) ≡ ok opened_tables
  opens_one : length opened_tables.incidents ≡ 1
  goes_down : apply_native_observation source_text 100 empty native_down ≡ ok down_tables
  down_one : length down_tables.incidents ≡ 1
  goes_silent :
      apply_native_observation source_text 100 opened_tables native_unknown ≡ ok silent_tables
  mutes : invalidate_evidence 150 opened_tables 10 12 3 "false alarm" ≡ ok muted_tables
  only_active : IsOnlyActive disk_fact 12 opened_tables.evidence
  fresh_row :
      All
        (λ r. r.id ≡ 12 → (same_identity disk_fact r ≡ true) × (r.rearmed_at ≡ none))
        opened_tables.evidence
  disk_complete : is_complete disk_fact ≡ true
  muted_inactive : active_evidence muted_tables disk_fact ≡ none
  muted_there : exists (is_muted disk_fact) muted_tables.evidence ≡ true
  incidents_keyed : IsKeyed (λ j. j.id) opened_tables.incidents
  evidence_keyed : IsKeyed (λ r. r.id) opened_tables.evidence
  stays_held : advance_due_incidents held_tables 300000000000 ≡ ok held_tables
  settles : recompute_incident opened_tables 10 300000000000 ≡ ok settled_tables
  merges : merge_targets spread_tables 2 1 200 ≡ ok (merged.0, 1)
  reassigns : reassign_source down_tables 2 7 none 300 ≡ ok (reassigned.0, 1)
  reassigns_one : map (λ e. e.target_id) reassigned.0.evidence ≡ (2 ∷ [])
  merges_one : map (λ i. i.id) merged.0.impacts ≡ (90 ∷ [])
  merges_evidence : map (λ e. e.impact_id) merged.0.evidence ≡ (90 ∷ [])
  stands :
      All
        (λ (e : Evidence).
          exists
            (λ (i : Impact). i.id == e.impact_id && i.target_id == e.target_id)
            spread_tables.impacts
          ≡ true)
        spread_tables.evidence
  applies : apply_evidence_fact opened_tables disk_fact 160 ≡ ok applied
  tells : acknowledge_local opened_tables 10 3 ≡ ok told
  tells_zabbix : told.targets ≡ (12 ∷ [])
  evidence_found :
      find? (λ r. r.id == opened_evidence.id) opened_tables.evidence ≡ some opened_evidence
  not_observed :
      (is_observed other_snapshot opened_evidence
        && not (is_seen [] (evidence_identity opened_evidence)))
      ≡ false

-- What two snapshots without the signal give.
record Clearing : Type 0 where
  kuma_clears :
      (reconcile_uptime_kuma kuma_text 200 kuma_tables kuma_up ≡ ok kuma_after)
      × (length (select (λ e. e.active) kuma_tables.evidence) ≡ 1)
      × (length (select (λ e. e.active) kuma_after.evidence) ≡ 0)
  zabbix_clears : reconcile_zabbix kuma_text 200 opened_tables zabbix_silent ≡ ok zabbix_after

clearing : Clearing
unfolding is_space is_blank text_ltb trim_left trim_right rune_count cut_bytes same_kind bounded
    versioned normalize impairs_functioning common evaluate severity_rank valid_severity
    same_severity same_origin highest_from highest append_activity resolve_evidence_row shared_kind
    refresh_incident_presentation left string_agg desired_status desired_error
    recompute_acknowledgement acknowledged_by_connector acknowledge_row inherit_acknowledgement
    acknowledge_from_evidence settle_impact recompute_impact derive_incident write_derived
    settle_incident recompute_incident recompute_incidents advance_due_incidents cadence_seconds
    evidence_window extended_row extend_propagation reopened_row has_later is_resumable resumed_row
    resume resume_recent_incident insert_impact opened_row insert_incident is_current is_propagating
    join open_incident ensure_impact is_complete same_identity is_muted see refreshed_row refresh
    inserted_row inherit attach apply_new move apply_existing apply_evidence_fact identity
    comes_before insert_fact sort_facts lease_holds note_applied apply_facts is_observed
    resolve_absent rearmed_row rearm_recovered_evidence recompute_impacts sweep observe cycle
    apply_evidence_snapshot uptime_kuma_fact reconcile_uptime_kuma reconcile_zabbix
clearing = record { kuma_clears = (refl, refl, refl); zabbix_clears = refl }

-- How the incident ends.
record Ending : Type 0 where
  closes : apply_evidence_snapshot 200 opened_tables (snapshot_of []) ≡ ok closed_tables
  archives : resolve_for_archived_target opened_tables 1 200 ≡ ok archived_tables

ending : Ending
unfolding is_space is_blank text_ltb trim_left trim_right rune_count cut_bytes same_kind bounded
    versioned normalize impairs_functioning common evaluate severity_rank valid_severity
    same_severity same_origin highest_from highest append_activity resolve_evidence_row shared_kind
    refresh_incident_presentation left string_agg desired_status desired_error
    recompute_acknowledgement acknowledged_by_connector acknowledge_row inherit_acknowledgement
    acknowledge_from_evidence settle_impact recompute_impact derive_incident write_derived
    settle_incident recompute_incident recompute_incidents advance_due_incidents cadence_seconds
    evidence_window extended_row extend_propagation reopened_row has_later is_resumable resumed_row
    resume resume_recent_incident insert_impact opened_row insert_incident is_current is_propagating
    join open_incident ensure_impact is_complete same_identity is_muted see refreshed_row refresh
    inserted_row inherit attach apply_new move apply_existing apply_evidence_fact identity
    comes_before insert_fact sort_facts lease_holds note_applied apply_facts is_observed
    resolve_absent rearmed_row rearm_recovered_evidence recompute_impacts sweep observe cycle
    apply_evidence_snapshot resolve_each ids_of recompute_counted resolve_owned_evidence_count
    resolve_for_source_removal resolve_for_connector_removal resolve_for_archived_target
ending = record { closes = refl; archives = refl }

resumes : resume_recent_incident resolved_tables late_fact 302000000000 ≡ some resumed
unfolding is_space is_blank text_ltb trim_left trim_right rune_count cut_bytes same_kind bounded
    versioned normalize impairs_functioning common evaluate severity_rank valid_severity
    same_severity same_origin highest_from highest append_activity resolve_evidence_row shared_kind
    refresh_incident_presentation left string_agg desired_status desired_error
    recompute_acknowledgement acknowledged_by_connector acknowledge_row inherit_acknowledgement
    acknowledge_from_evidence settle_impact recompute_impact derive_incident write_derived
    settle_incident recompute_incident recompute_incidents advance_due_incidents cadence_seconds
    evidence_window extended_row extend_propagation reopened_row has_later is_resumable resumed_row
    resume resume_recent_incident insert_impact opened_row insert_incident is_current is_propagating
    join open_incident ensure_impact is_complete same_identity is_muted see refreshed_row refresh
    inserted_row inherit attach apply_new move apply_existing apply_evidence_fact identity
    comes_before insert_fact sort_facts lease_holds note_applied apply_facts is_observed
    resolve_absent rearmed_row rearm_recovered_evidence recompute_impacts sweep observe cycle
    apply_evidence_snapshot
resumes = refl

runs : Runs
unfolding is_space is_blank text_ltb trim_left trim_right rune_count cut_bytes same_kind bounded
    versioned normalize impairs_functioning common evaluate severity_rank valid_severity
    same_severity same_origin highest_from highest append_activity resolve_evidence_row shared_kind
    refresh_incident_presentation left string_agg desired_status desired_error
    recompute_acknowledgement acknowledged_by_connector acknowledge_row inherit_acknowledgement
    acknowledge_from_evidence settle_impact recompute_impact derive_incident write_derived
    settle_incident recompute_incident recompute_incidents advance_due_incidents cadence_seconds
    evidence_window extended_row extend_propagation reopened_row has_later is_resumable resumed_row
    resume resume_recent_incident insert_impact opened_row insert_incident is_current is_propagating
    join open_incident ensure_impact is_complete same_identity is_muted see refreshed_row refresh
    inserted_row inherit attach apply_new move apply_existing apply_evidence_fact identity
    comes_before insert_fact sort_facts lease_holds note_applied apply_facts is_observed
    resolve_absent rearmed_row rearm_recovered_evidence recompute_impacts sweep observe cycle
    apply_evidence_snapshot resolve_and_recompute resolve_evidence native_fact is_native_evidence
    recover_native_evidence after_fact persist_streaks conclude apply_native_observation
    invalidated_row invalidate_evidence service_invalidate_evidence acknowledged_by_user queued_row
    acknowledge_first plan acknowledge_local completed_row complete_one complete_all
    complete_acknowledgement results_of acknowledge resolve_each ids_of recompute_counted
    resolve_owned_evidence_count resolve_for_source_removal resolve_for_connector_removal
    resolve_for_archived_target candidate candidates move_impact absorb_impact merge_one merge_each
    touch_incident_structure incident_ids revise_each merge_targets is_reassigned group_of
    groups_from split_impact insert_split destination_of move_evidence settle_original reassign_one
    reassign_each group_incidents reassign_source
runs = record {
  opens = refl;
  opens_one = refl;
  goes_down = refl;
  down_one = refl;
  goes_silent = refl;
  mutes = refl;
  only_active = (λ _ _. refl, tt);
  fresh_row = (λ _. (refl, refl), tt);
  disk_complete = refl;
  muted_inactive = refl;
  muted_there = refl;
  incidents_keyed = (refl, tt);
  evidence_keyed = (refl, tt);
  stays_held = refl;
  settles = refl;
  merges = refl;
  reassigns = refl;
  reassigns_one = refl;
  merges_one = refl;
  merges_evidence = refl;
  stands = (refl, tt);
  applies = refl;
  tells = refl;
  tells_zabbix = refl;
  evidence_found = refl;
  not_observed = refl;
}

opened_checked : AreChecked opened_tables
opened_checked =
    apply_evidence_snapshot-AreChecked 100 empty opened_tables (snapshot_of (disk_fact ∷ [])) tt
      runs.opens

apply_evidence_snapshot-AreChecked_example : AreChecked opened_tables
apply_evidence_snapshot-AreChecked_example =
    apply_evidence_snapshot-AreChecked 100 empty opened_tables (snapshot_of (disk_fact ∷ [])) tt
      runs.opens

apply_evidence_snapshot-accounts_example :
    All
      (λ e. IsMissing (snapshot_of []) e → (e.active ≡ false) × (awaits_recovery e ≡ false))
      closed_tables.evidence
apply_evidence_snapshot-accounts_example =
    apply_evidence_snapshot-accounts 200 opened_tables closed_tables (snapshot_of []) ending.closes

reconcile_uptime_kuma-clears_example :
    All
      (λ e. IsUptimeKumaGone kuma_text kuma_up e → (e.active ≡ false) × (awaits_recovery e ≡ false))
      kuma_after.evidence
reconcile_uptime_kuma-clears_example =
    reconcile_uptime_kuma-clears kuma_text 200 kuma_tables kuma_after kuma_up
      (clearing.kuma_clears.0)

reconcile_zabbix-clears_example :
    All
      (λ e.
        IsZabbixGone kuma_text zabbix_silent e → (e.active ≡ false) × (awaits_recovery e ≡ false))
      zabbix_after.evidence
reconcile_zabbix-clears_example =
    reconcile_zabbix-clears kuma_text 200 opened_tables zabbix_after zabbix_silent
      clearing.zabbix_clears

sweep-find?_example :
    find? (λ r. r.id == opened_evidence.id) (sweep gathered other_snapshot 200).tables.evidence
    ≡ some opened_evidence
sweep-find?_example =
    sweep-find? gathered other_snapshot 200 opened_evidence runs.evidence_keyed runs.evidence_found
      runs.not_observed

invalidate_evidence-OpensNothing_example :
    (a : Applied) × (apply_evidence_fact muted_tables disk_fact 400 ≡ ok a)
    × OpensNothing muted_tables a
invalidate_evidence-OpensNothing_example =
    invalidate_evidence-OpensNothing 150 opened_tables muted_tables 10 12 3 "false alarm" disk_fact
      400 runs.only_active runs.fresh_row runs.disk_complete runs.mutes

advance_due_incidents-none_due_example :
    (u : Tables) × (advance_due_incidents opened_tables 300000000000 ≡ ok u)
    × (exists (is_taken opened_tables.locked_elsewhere 300000000000) u.incidents ≡ false)
advance_due_incidents-none_due_example =
    advance_due_incidents-none_due opened_tables 300000000000 runs.incidents_keyed

apply_native_observation-AreChecked_example : AreChecked down_tables
apply_native_observation-AreChecked_example =
    apply_native_observation-AreChecked source_text 100 empty down_tables native_down tt
      runs.goes_down

apply_native_observation-unknown_example : silent_tables.evidence ≡ opened_tables.evidence
apply_native_observation-unknown_example =
    apply_native_observation-unknown source_text 100 opened_tables silent_tables native_unknown
      (λ e. cc) (λ e. cc) runs.goes_silent

resolve_for_archived_target-releases_example :
    All (λ e. e.target_id ≡ 1 → e.active ≡ false) archived_tables.evidence
resolve_for_archived_target-releases_example =
    resolve_for_archived_target-releases opened_tables archived_tables 1 200 ending.archives

reassign_source-moves_example :
    All (λ e. (not (is_reassigned 7 none e) || e.target_id == 2) ≡ true) reassigned.0.evidence
reassign_source-moves_example =
    reassign_source-moves 7 none 2 down_tables reassigned.0 300 1 runs.reassigns

merge_targets-leaves_none_example :
    All (λ (i : Impact). i.target_id ≢ 1) merged.0.impacts
    × All (λ (e : Evidence). e.target_id ≢ 1) merged.0.evidence
merge_targets-leaves_none_example =
    merge_targets-leaves_none spread_tables merged.0 2 1 200 1 (omega arith) runs.stands runs.merges

resume_recent_incident-IsRecent_example :
    (i : Incident) × (resumed.incident_id ≡ i.id)
    × IsRow i resolved_tables.incidents
    × IsRecent resolved_tables late_fact 302000000000 i
    × All
        (λ j.
          IsRecent resolved_tables late_fact 302000000000 j
          → resolved_or_zero j ≤ resolved_or_zero i)
        resolved_tables.incidents
resume_recent_incident-IsRecent_example =
    resume_recent_incident-IsRecent resolved_tables late_fact 302000000000 resumed resumes

recompute_incident-IsDerived_example :
    (before after : Incident) × (find? (λ j. j.id == 10) opened_tables.incidents ≡ some before)
    × (find? (λ j. j.id == 10) settled_tables.incidents ≡ some after)
    × IsDerived opened_tables before 300000000000 after
    × (settled_tables.impacts ≡ opened_tables.impacts)
    × (settled_tables.evidence ≡ opened_tables.evidence)
recompute_incident-IsDerived_example =
    recompute_incident-IsDerived opened_tables settled_tables 10 300000000000 runs.settles

evidence_window_bounds_example :
    let w = evidence_window empty disk_fact in
    (60 ≤ w)
    × (w ≤ 300)
    × ((cadence_seconds empty disk_fact * 2 ≤ w) ⊎ (w ≡ 300))
    × ((window_seconds disk_fact.evaluation_window ≤ w) ⊎ (w ≡ 300))
    × ((w ≡ 60)
        ⊎ ((w ≡ 300)
            ⊎ ((w ≡ cadence_seconds empty disk_fact * 2)
                ⊎ (w ≡ window_seconds disk_fact.evaluation_window))))
evidence_window_bounds_example = evidence_window_bounds empty disk_fact

abbrev first_incident : Incident
first_incident = opened_row 10 100 disk_fact 60 100
