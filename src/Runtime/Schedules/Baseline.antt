-- ===== src/Runtime/Schedules/Baseline.antt =====
-- crates/logiksmith-core/src/runtime_impl.rs: `initialise_schedules`, `rebaseline_block_schedules`, and
-- the views of the schedules.
use logik_smith.Prelude.{
  ℕ, zero, suc, false, Option, none, some, List, [], ◌∷◌, find, if◌then◌else◌,
}
use logik_smith.Prelude.Int.{ℤ, leb_ℤ}
use logik_smith.Prelude.Order.{list_ord, nat_ord, pair_ord, same}
use logik_smith.Prelude.Result.{Result, ok, err, ◌>>=◌, ok_or}
use logik_smith.BTreeMap.{get, insert}
use logik_smith.Identifiers.{BlockId}
use logik_smith.Execution.{SiteTimeConfig}
use logik_smith.Schedules.{
  ScheduleName, ScheduleRule, ScheduleCursor, ScheduleError, unknown_schedule,
}
use logik_smith.Schedules.Solar.{Calendar}
use logik_smith.Schedules.Occurrence.{next_occurrence_after}
use logik_smith.Runtime.{Runtime, ClockSample}
use logik_smith.Runtime.Schedules.{
  TimeError, clock_unavailable, unknown_block_id, Cursors, Entry, key_of, ensure_schedule_time,
  entries_of, all_entries, live_entries, fresh_cursor, cursor_or_fresh, current_revision, mark,
  rebaselined,
}

-- The cursor of `initialise_schedules`
unfoldable pub initial_cursor : Calendar → SiteTimeConfig → ℕ → Option ℤ → Entry → ScheduleCursor
unfolding fresh_cursor
initial_cursor calendar site revision none entry = fresh_cursor revision
initial_cursor calendar site revision (some utc) entry = record {
  last_delivered_utc_ms = none;
  next_occurrence_utc_ms = next_occurrence_after calendar entry.1.rule site utc;
  structural_revision = revision;
  needs_rebaseline = false;
}

unfoldable pub initial_cursors :
    Calendar → SiteTimeConfig → ℕ → Option ℤ → List Entry → Cursors → Cursors
unfolding initial_cursor
initial_cursors calendar site revision utc [] cursors = cursors
initial_cursors calendar site revision utc (entry ∷ entries) cursors =
    initial_cursors calendar site revision utc entries
      (insert (key_of entry) (initial_cursor calendar site revision utc entry) cursors)

-- `initialise_schedules`
unfoldable pub initialise_schedules :
    Calendar → Runtime → ClockSample → ℕ → Result TimeError (Unit {0}) × Runtime
unfolding initial_cursors
initialise_schedules calendar runtime sample revision =
    elim (ensure_schedule_time runtime sample.monotonic_ms) [
      | err e ↦ (err e, runtime)
      | ok _ ↦ (
        elim sample.utc_unix_ms [ none ↦ err clock_unavailable | some utc ↦ ok tt ],
        record runtime {
          last_accepted_at = some sample.monotonic_ms;
          schedule_structural_revision = some revision;
          schedule_cursors =
              initial_cursors calendar runtime.site revision sample.utc_unix_ms
                (all_entries runtime.blocks) [];
          last_schedule_wall_clock_utc_ms = sample.utc_unix_ms;
        },
      )
    ]

-- The cursor of one schedule of a block that gets a new baseline
unfoldable pub rebaseline_cursor :
    Calendar → SiteTimeConfig → ℕ → Option ℤ → Entry → ScheduleCursor → ScheduleCursor
unfolding mark
rebaseline_cursor calendar site revision none entry cursor =
    mark (record cursor { structural_revision = revision })
rebaseline_cursor calendar site revision (some utc) entry cursor =
    rebaselined calendar site entry.1.rule utc (record cursor { structural_revision = revision })

unfoldable pub rebaseline_entries :
    Calendar → SiteTimeConfig → ℕ → Option ℤ → List Entry → Cursors → Cursors
unfolding rebaseline_cursor
rebaseline_entries calendar site revision utc [] cursors = cursors
rebaseline_entries calendar site revision utc (entry ∷ entries) cursors =
    let cursor = cursor_or_fresh revision (key_of entry) cursors in
    rebaseline_entries calendar site revision utc entries
      (insert (key_of entry) (rebaseline_cursor calendar site revision utc entry cursor) cursors)

-- `rebaseline_block_schedules`
unfoldable pub rebaseline_block_schedules :
    Calendar → Runtime → BlockId → ClockSample → Result TimeError (Unit {0}) × Runtime
unfolding rebaseline_entries entries_of
rebaseline_block_schedules calendar runtime id sample =
    elim (ensure_schedule_time runtime sample.monotonic_ms) [
      | err e ↦ (err e, runtime)
      | ok _ ↦
          let accepted = record runtime { last_accepted_at = some sample.monotonic_ms } in
          elim (find (λ block. same block.config.id id) runtime.blocks) [
            | none ↦ (err (unknown_block_id id), accepted)
            | some block ↦ (
              ok tt,
              record accepted {
                schedule_cursors =
                    rebaseline_entries calendar runtime.site (current_revision runtime)
                      sample.utc_unix_ms (entries_of block) runtime.schedule_cursors;
                last_schedule_wall_clock_utc_ms = elim sample.utc_unix_ms [
                  | none ↦ none
                  | some _ ↦ runtime.last_schedule_wall_clock_utc_ms
                ];
              },
            )
          ]
    ]

-- `earliest` after one schedule
abbrev pub earlier : Option ℤ → Option ℤ → Option ℤ
earlier none next = next
earlier (some current) none = some current
earlier (some current) (some next) = some (if leb_ℤ current next then current else next)

unfoldable pub next_of : Cursors → Entry → Option ℤ
next_of cursors entry = elim (get (key_of entry) cursors) [
  | none ↦ none
  | some cursor ↦ cursor.next_occurrence_utc_ms
]

unfoldable pub earliest_from : Cursors → Option ℤ → List Entry → Option ℤ
unfolding next_of
earliest_from cursors best [] = best
earliest_from cursors best (entry ∷ entries) =
    earliest_from cursors (earlier best (next_of cursors entry)) entries

-- `next_schedule_deadline`
unfoldable pub next_schedule_deadline : Runtime → Option ℤ
unfolding earliest_from live_entries
next_schedule_deadline runtime =
    earliest_from runtime.schedule_cursors none (live_entries runtime.blocks)

-- The loop of `preview_occurrences`, with the occurrences that are still wanted.
unfoldable pub preview_from : Calendar → SiteTimeConfig → ScheduleRule → ℤ → ℕ → List ℤ
preview_from calendar site rule cursor zero = []
preview_from calendar site rule cursor (suc wanted) =
    elim (next_occurrence_after calendar rule site cursor) [
      | none ↦ []
      | some occurrence ↦ occurrence ∷ preview_from calendar site rule occurrence wanted
    ]

-- `preview_occurrences`
unfoldable pub preview_occurrences :
    Calendar → Runtime → BlockId → ScheduleName → ℤ → ℕ → Result ScheduleError (List ℤ)
unfolding preview_from
preview_occurrences calendar runtime id name after count = do
  block ← ok_or (find (λ block. same block.config.id id) runtime.blocks) unknown_schedule
  schedule ← ok_or (find (λ s. same s.name name) block.config.schedules) unknown_schedule
  ok (preview_from calendar runtime.site schedule.rule after count)
