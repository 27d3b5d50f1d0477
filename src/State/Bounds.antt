-- ===== src/State/Bounds.antt =====
-- What a validated state guarantees.
use logik_smith.Prelude.{
  ℕ, ◌+◌, ◌-◌, ◌^◌, ◌≤◌, ◌<◌, ◌≡◌, ◌≢◌, ◌↔◌, refl, true, [], ◌∷◌, arith, All, min, ltb, ap, sym,
  subst, ◌∙◌,
}
use logik_smith.Prelude.Order.{list_ord, nat_ord}
use logik_smith.Prelude.Result.{ok, reject, >>=-eq-ok}
use logik_smith.BTreeMap.{len, extend}
use logik_smith.Text.{Text, byte_len}
use logik_smith.Limits.{RuntimeLimits}
use logik_smith.Values.{is_finite}
use logik_smith.State.{
  StateValue, boolean, integer, number, string, TransientState, StatePatch, validate_state_entry,
  string_bytes, total_bytes, add_entry, validate_state_map_with_limits, merge_state_with_limits,
}

abbrev pub IsValidValue : StateValue → Type 0
IsValidValue (boolean b) = Unit
IsValidValue (integer i) = Unit
IsValidValue (number bits) = is_finite bits ≡ true
IsValidValue (string s) = byte_len s ≤ 1024

abbrev pub IsValidEntry : Text × StateValue → Type 0
IsValidEntry e = (e.0 ≢ []) × (byte_len e.0 ≤ 64) × IsValidValue e.1

-- The bytes of all keys and of all strings.
abbrev pub state_bytes : TransientState → ℕ
state_bytes [] = 0
state_bytes ((key, value) ∷ rest) = byte_len key + string_bytes value + state_bytes rest

pub record IsValidState (limits : RuntimeLimits) (state : TransientState) : Type 0 where
  pub entries : len state ≤ limits.max_state_entries_per_block
  pub each : All IsValidEntry state
  pub bytes : state_bytes state ≤ limits.max_state_bytes_per_block

validate_state_entry_iff :
    (key : Text) (value : StateValue)
    → (validate_state_entry key value ≡ ok tt) ↔ IsValidEntry (key, value)
unfolding validate_state_entry
validate_state_entry_iff [] value = (λ h. cc, λ h. absurd (h.0 refl))
validate_state_entry_iff (c ∷ cs) (boolean b) =
    (λ h. ((λ e. cc), ground arith, tt), λ h. ground arith)
validate_state_entry_iff (c ∷ cs) (integer i) =
    (λ h. ((λ e. cc), ground arith, tt), λ h. ground arith)
validate_state_entry_iff (c ∷ cs) (number bits) =
    (λ h. ((λ e. cc), ground arith, ground arith), λ h. ground arith)
validate_state_entry_iff (c ∷ cs) (string s) =
    (λ h. ((λ e. cc), ground arith, ground arith), λ h. ground arith)

add_entry-eq-min :
    (total : ℕ) (key : Text) (value : StateValue)
    → add_entry total key value ≡ min (total + (byte_len key + string_bytes value)) (2 ^ 64 - 1)
unfolding add_entry
add_entry-eq-min total key (boolean b) = omega arith
add_entry-eq-min total key (integer i) = omega arith
add_entry-eq-min total key (number n) = omega arith
add_entry-eq-min total key (string s) = omega arith

total_bytes_sound :
    (total : ℕ) (state : TransientState) {r : ℕ}
    → total ≤ 2 ^ 64 - 1
    → total_bytes total state ≡ ok r
    → All IsValidEntry state × (r ≡ min (total + state_bytes state) (2 ^ 64 - 1))
unfolding total_bytes
total_bytes_sound total [] t h = (tt, ground arith)
total_bytes_sound total ((key, value) ∷ rest) {r} t h =
    let (u, v, next) =
      >>=-eq-ok (validate_state_entry key value) (λ _. total_bytes (add_entry total key value) rest)
        h in
    let room = add_entry-eq-min total key value in
    let ih =
      total_bytes_sound (add_entry total key value) rest {r = r} (omega (arith, room)) next in
    (((validate_state_entry_iff key value).0 v, ih.0), omega (arith, ih.1, room))

total_bytes_complete :
    (total : ℕ) (state : TransientState)
    → total ≤ 2 ^ 64 - 1
    → All IsValidEntry state
    → total_bytes total state ≡ ok (min (total + state_bytes state) (2 ^ 64 - 1))
unfolding total_bytes
total_bytes_complete total [] t a = ap ok (omega arith)
total_bytes_complete total ((key, value) ∷ rest) t a =
    let room = add_entry-eq-min total key value in
    rw ((validate_state_entry_iff key value).1 a.0) (
      total_bytes_complete (add_entry total key value) rest (omega (arith, room)) a.1
      ∙ ap ok (omega (arith, room)))

-- A state map passes validation exactly when it has at most the permitted number of entries, each
-- key is non-empty and of at most 64 bytes, each string has at most 1024 bytes and each float is
-- finite, and keys and strings together stay within the byte budget. The budget is assumed to lie
-- below the saturation point of the 64-bit sum.
pub validate_state_map_iff :
    (state : TransientState) (limits : RuntimeLimits)
    → limits.max_state_bytes_per_block < 2 ^ 64 - 1
    → (validate_state_map_with_limits state limits ≡ ok tt) ↔ IsValidState limits state
unfolding validate_state_map_with_limits
validate_state_map_iff state limits fits = (sound, complete)
  where
    sound : validate_state_map_with_limits state limits ≡ ok tt → IsValidState limits state
    sound h =
        let (u, few, h') =
          >>=-eq-ok (reject (ltb limits.max_state_entries_per_block (len state)) _) _ h in
        let (total, sums, small) = >>=-eq-ok (total_bytes 0 state) _ h' in
        let (each, eq) = total_bytes_sound 0 state {r = total} (omega arith) sums in
        let below : total ≤ limits.max_state_bytes_per_block = ground arith in
        record { entries = ground arith; each = each; bytes = omega (arith, below, eq) }

    complete : IsValidState limits state → validate_state_map_with_limits state limits ≡ ok tt
    complete v =
        let sums = total_bytes_complete 0 state (omega arith) v.each in
        ground (arith, sums, v.entries, v.bytes)

-- A merge that succeeds is the current state with every entry of the patch written over it, and it
-- is a valid state.
pub merge_state_sound :
    (current : TransientState) (patch : StatePatch) (limits : RuntimeLimits)
    {merged : TransientState}
    → limits.max_state_bytes_per_block < 2 ^ 64 - 1
    → merge_state_with_limits current patch limits ≡ ok merged
    → (merged ≡ extend current patch) × IsValidState limits merged
unfolding merge_state_with_limits
merge_state_sound current patch limits {merged} fits h =
    let (u, valid, same) =
      >>=-eq-ok (validate_state_map_with_limits (extend current patch) limits) _ h in
    let eq : extend current patch ≡ merged = ground arith in
    (sym eq, subst (IsValidState limits) eq ((validate_state_map_iff _ limits fits).0 valid))
