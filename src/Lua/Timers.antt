-- ===== src/Lua/Timers.antt =====
-- crates/logiksmith-core/src/lua_conversion.rs: the timers of a result.
use logik_smith.Prelude.{
  ℕ, ◌-◌, ◌^◌, false, Option, none, some, List, [], ◌∷◌, ◌++◌, ◌&&◌, ◌||◌, not, leb, ltb, is_some,
  length, if◌then◌else◌, Ordering,
}
use logik_smith.Prelude.Order.{list_ord, nat_ord, same}
use logik_smith.Prelude.Result.{Result, ok, err, ◌>>=◌, ◌>>◌, reject, map_err, ok_or}
use logik_smith.Prelude.Int.{pos, negsuc}
use logik_smith.BTreeMap.{len, get}
use logik_smith.Text.{Text}
use logik_smith.Identifiers.{validate_endpoint_name}
use logik_smith.Limits.{RuntimeLimits}
use logik_smith.Values.{MonotonicMs, Float, is_finite, checked_add}
use logik_smith.Program.{
  LogicError, invalid, TimerName, timer_name_not_utf8, timer_name_type, invalid_timer_name,
  timer_field_not_utf8, timer_field_type, timer_unknown_field, timer_duplicate_after,
  timer_requires_after, timer_overflow, timer_wrong_type, duration_wrong_type,
  duration_out_of_range, too_many_timer_effects, too_many_pending_timers,
}
use logik_smith.Timer.{
  TimerAction, scheduled, replaced, cancelled, cancel_noop, TimerEffect, PendingTimer, Timers,
  apply_timer_effects,
}
use logik_smith.Lua.{LuaValue, LuaTable, end, pair, type_name}
use logik_smith.Lua.Convert.{string_key}

-- The part of `lua_duration_ms` behind its match.
whole_ms : Float → ℕ → Result LogicError ℕ
whole_ms f n =
    if not (is_finite n) || not (f.is_whole_u32 n)
    then err (invalid duration_out_of_range)
    else ok (f.to_u32 n)

unfoldable pub lua_duration_ms : Float → LuaValue → Result LogicError ℕ
unfolding whole_ms
lua_duration_ms f (LuaValue.integer (pos n)) =
    if leb 1 n && leb n (2 ^ 32 - 1) then ok n else whole_ms f (f.of_i64 (pos n))
lua_duration_ms f (LuaValue.integer (negsuc n)) = whole_ms f (f.of_i64 (negsuc n))
lua_duration_ms f (LuaValue.number n) = whole_ms f n
lua_duration_ms f value = err (invalid (duration_wrong_type (type_name value)))

abbrev pub after_field : Text
after_field = b'a' ∷ b'f' ∷ b't' ∷ b'e' ∷ b'r' ∷ []

-- The loop over the pairs of a schedule table.
unfoldable pub schedule_pairs :
    Float → TimerName → LuaTable → Option ℕ → Result LogicError (Option ℕ)
schedule_pairs f name end after = ok after
schedule_pairs f name (pair key value rest) after = do
  field ← string_key (timer_field_not_utf8 name) (λ k. timer_field_type name (type_name k)) key
  reject (not (same field after_field)) (invalid (timer_unknown_field name field))
  after_value ← lua_duration_ms f value
  reject (is_some after) (invalid (timer_duplicate_after name))
  schedule_pairs f name rest (some after_value)

-- `Scheduled`, or `Replaced` where the timer is pending.
schedule_action : Option PendingTimer → ℕ → MonotonicMs → TimerAction
schedule_action none after_ms due_at = scheduled after_ms due_at
schedule_action (some timer) after_ms due_at = replaced timer.due_at after_ms due_at

-- `Cancelled`, or `CancelNoop` where nothing is pending.
cancel_action : Option PendingTimer → TimerAction
cancel_action none = cancel_noop
cancel_action (some timer) = cancelled timer.due_at

-- The match on the value of one pair.
unfoldable pub timer_action :
    Float → Timers → MonotonicMs → TimerName → LuaValue → Result LogicError TimerAction
unfolding schedule_action cancel_action
timer_action f pending now name (LuaValue.boolean false) = ok (cancel_action (get name pending))
timer_action f pending now name (LuaValue.table schedule) = do
  after ← schedule_pairs f name schedule none
  after_ms ← ok_or after (invalid (timer_requires_after name))
  due_at ← ok_or (checked_add now after_ms) (invalid (timer_overflow name))
  ok (schedule_action (get name pending) after_ms due_at)
timer_action f pending now name value = err (invalid (timer_wrong_type name (type_name value)))

-- The loop over the pairs of the timers table; effects are pushed at the end.
unfoldable pub timer_pairs :
    Float
    → Timers
    → MonotonicMs
    → LuaTable
    → List TimerEffect
    → Result LogicError (List TimerEffect)
timer_pairs f pending now end raw = ok raw
timer_pairs f pending now (pair key value rest) raw = do
  name ← string_key timer_name_not_utf8 (λ k. timer_name_type (type_name k)) key
  map_err (λ error. invalid (invalid_timer_name name error)) (validate_endpoint_name name)
  action ← timer_action f pending now name value
  timer_pairs f pending now rest (raw ++ record { name = name; action = action } ∷ [])

-- `raw.sort_by(|left, right| left.name.cmp(&right.name))`, a stable sort.
insert_by_name : TimerEffect → List TimerEffect → List TimerEffect
insert_by_name e [] = e ∷ []
insert_by_name e (d ∷ ds) = elim (list_ord.cmp d.name e.name) [
  | Ordering.gt ↦ e ∷ d ∷ ds
  | _ ↦ d ∷ insert_by_name e ds
]

unfoldable pub sort_from : List TimerEffect → List TimerEffect → List TimerEffect
unfolding insert_by_name
sort_from sorted [] = sorted
sort_from sorted (e ∷ es) = sort_from (insert_by_name e sorted) es

-- The candidate of the source applies the same effects with revision 0.
unfoldable pub convert_timers :
    Float
    → Option LuaTable
    → Timers
    → MonotonicMs
    → RuntimeLimits
    → Result LogicError (List TimerEffect)
convert_timers f none pending now limits = ok []
convert_timers f (some timers) pending now limits = do
  pushed ← timer_pairs f pending now timers []
  let raw = sort_from [] pushed
  let candidate = apply_timer_effects pending raw now 0
  reject (ltb limits.max_timer_effects_per_execution (length raw))
      (invalid (too_many_timer_effects limits.max_timer_effects_per_execution))
  reject (ltb limits.max_pending_timers_per_block (len candidate))
      (invalid (too_many_pending_timers limits.max_pending_timers_per_block))
  ok raw
