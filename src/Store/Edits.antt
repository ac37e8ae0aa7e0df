-- ===== src/Store/Edits.antt =====
-- The analyst's verdicts on a node (`edit_node`, `reject_node` and `restore_node` of
-- crates/ozint/src/store.rs). The JSON of a status is the status; `dedup_key` is normalize.rs's.
pub mod Verdicts
use ozint.Base.{
  ℕ, String, Bool, true, false, ◌==◌, if◌then◌else◌, Option, none, some, List, [], ◌∷◌, Map, get,
  insert, unwrap_or, string_eq,
}
use ozint.Types.{OzType, Json}

pub data RecordStatus : Type 0 where
  as_returned : RecordStatus
  corrected : (original_value : String) (original_chip : Option Json) (edited_at : ℕ) → RecordStatus
  rejected : (rejected_at : ℕ) → RecordStatus

unfoldable pub is_rejected : RecordStatus → Bool
is_rejected (rejected at) = true
is_rejected _ = false

-- The columns that an edit reads or writes. `oz_type` is `none` where this build cannot parse it.
pub record EditRow : Type 0 where
  pub oz_type : Option OzType
  pub value : String
  pub preview_signal : Option Json
  pub dedup_key : String
  pub edited_value : Option String
  pub record_status : RecordStatus
  pub pre_reject_status : Option RecordStatus

abbrev pub EditTable : Type 0
EditTable = Map String EditRow

-- What the tool returned, by an earlier correction or by the row itself.
unfoldable pub original_of : RecordStatus → EditRow → String × Option Json
original_of (corrected original_value original_chip edited_at) row = (original_value, original_chip)
original_of as_returned row = (row.value, row.preview_signal)
original_of (rejected at) row = (row.value, row.preview_signal)

module _ (dedup_key : OzType → String → String) where
  key_of_edit : Option OzType → String → String → String
  key_of_edit none new_value old_key = old_key
  key_of_edit (some t) new_value old_key = dedup_key t new_value

  unfoldable pub edit_row : ℕ → String → EditRow → EditRow
  unfolding original_of key_of_edit
  edit_row now new_value row =
      let (original_value, original_chip) = original_of row.record_status row in
      record row {
        record_status = corrected original_value original_chip now;
        edited_value = some new_value;
        dedup_key = key_of_edit row.oz_type new_value row.dedup_key;
      }

  unfoldable pub reject_row : ℕ → EditRow → EditRow
  unfolding is_rejected
  reject_row now row =
      if is_rejected row.record_status
      then row
      else record row { record_status = rejected now; pre_reject_status = some row.record_status }

  unfoldable pub restore_row : EditRow → EditRow
  unfolding is_rejected
  restore_row row =
      if is_rejected row.record_status
      then record row {
        record_status = unwrap_or as_returned row.pre_reject_status;
        pre_reject_status = none;
      }
      else row

  -- The shape that the three operations share: `false` where there is no such node.
  on_row : (EditRow → EditRow) → String → EditTable → Bool × EditTable
  on_row f id table = elim (get id table) [
    | none ↦ (false, table)
    | some row ↦ (true, insert id (f row) table)
  ]

  unfoldable pub edit_node : ℕ → String → String → EditTable → Bool × EditTable
  unfolding on_row edit_row
  edit_node now id new_value table = on_row (edit_row now new_value) id table

  unfoldable pub reject_node : ℕ → String → EditTable → Bool × EditTable
  unfolding on_row reject_row
  reject_node now id table = on_row (reject_row now) id table

  unfoldable pub restore_node : String → EditTable → Bool × EditTable
  unfolding on_row restore_row
  restore_node id table = on_row restore_row id table
