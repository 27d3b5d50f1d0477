-- ===== src/State.antt =====
-- crates/logiksmith-core/src/state.rs: the transient state of a block, its validation and merge.
pub mod Bounds
use logik_smith.Prelude.{
  ℕ, ◌+◌, ◌-◌, ◌^◌, Bool, List, [], ◌∷◌, ltb, if◌then◌else◌, not, min, length,
}
use logik_smith.Prelude.Order.{list_ord, nat_ord}
use logik_smith.Prelude.Result.{Result, ok, err, ◌>>=◌, ◌>>◌, reject}
use logik_smith.Prelude.Int.{ℤ}
use logik_smith.BTreeMap.{BTreeMap, len, extend}
use logik_smith.Text.{Text, byte_len}
use logik_smith.Limits.{RuntimeLimits}
use logik_smith.Values.{is_finite}
use logik_smith.Program.{
  StateError, too_many_entries, key_too_large, empty_key, string_too_large, total_too_large,
  non_finite_number,
}

-- A float is its 64-bit pattern.
pub data StateValue : Type 0 where
  boolean : Bool → StateValue
  integer : ℤ → StateValue
  number : ℕ → StateValue
  string : Text → StateValue

abbrev pub TransientState : Type 0
TransientState = BTreeMap Text StateValue

abbrev pub StatePatch : Type 0
StatePatch = BTreeMap Text StateValue

abbrev pub max_state_key_bytes : ℕ
max_state_key_bytes = 64

abbrev pub max_state_string_bytes : ℕ
max_state_string_bytes = 1024

-- The match on the value in `validate_state_entry`.
check_state_value : Text → StateValue → Result StateError (Unit {0})
check_state_value key (string value) =
    if ltb max_state_string_bytes (byte_len value)
    then err (string_too_large key (byte_len value) max_state_string_bytes)
    else ok tt
check_state_value key (number value) =
    if not (is_finite value) then err (non_finite_number key) else ok tt
check_state_value key (boolean value) = ok tt
check_state_value key (integer value) = ok tt

unfoldable pub validate_state_entry : Text → StateValue → Result StateError (Unit {0})
unfolding check_state_value
validate_state_entry [] value = err empty_key
validate_state_entry (c ∷ cs) value =
    if ltb max_state_key_bytes (byte_len (c ∷ cs))
    then err (key_too_large (c ∷ cs) (byte_len (c ∷ cs)) max_state_key_bytes)
    else check_state_value (c ∷ cs) value

-- `usize::saturating_add`, of 64 bits.
abbrev pub saturating_add : ℕ → ℕ → ℕ
saturating_add a b = min (a + b) (2 ^ 64 - 1)

-- What a value adds to the total beside its key.
abbrev pub string_bytes : StateValue → ℕ
string_bytes (string value) = byte_len value
string_bytes (boolean value) = 0
string_bytes (integer value) = 0
string_bytes (number value) = 0

-- The additions of one round of the loop.
add_entry : ℕ → Text → StateValue → ℕ
add_entry total key (string value) =
    saturating_add (saturating_add total (byte_len key)) (byte_len value)
add_entry total key (boolean value) = saturating_add total (byte_len key)
add_entry total key (integer value) = saturating_add total (byte_len key)
add_entry total key (number value) = saturating_add total (byte_len key)

-- The loop over the entries, from the total of those before.
unfoldable pub total_bytes : ℕ → TransientState → Result StateError ℕ
unfolding add_entry
total_bytes total [] = ok total
total_bytes total ((key, value) ∷ rest) =
    validate_state_entry key value >>= λ _. total_bytes (add_entry total key value) rest

unfoldable pub validate_state_map_with_limits :
    TransientState → RuntimeLimits → Result StateError (Unit {0})
validate_state_map_with_limits state limits = do
  reject (ltb limits.max_state_entries_per_block (len state))
      (too_many_entries (len state) limits.max_state_entries_per_block)
  total ← total_bytes 0 state
  reject (ltb limits.max_state_bytes_per_block total)
      (total_too_large total limits.max_state_bytes_per_block)

unfoldable pub merge_state_with_limits :
    TransientState → StatePatch → RuntimeLimits → Result StateError TransientState
merge_state_with_limits current patch limits =
    let merged = extend current patch in
    validate_state_map_with_limits merged limits >>= λ _. ok merged
