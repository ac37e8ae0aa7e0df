-- ===== src/Types/Views.antt =====
-- The part of an `OzNode` of crates/ozint/src/types.rs that the derived views (relations.rs and
-- subject_file.rs) read, with its payload typed.
use ozint.Base.{String, Bool, not, Option, unwrap_or, List, [], ◌∷◌, ◌++◌}
use ozint.Types.{OzType, OzRow, OzSection}
use ozint.Types.Payloads.{OzPayload}
use ozint.Store.Edits.{RecordStatus, is_rejected}

pub record ViewNode (F : Type 0) : Type 0 where
  pub id : String
  pub oz_type : OzType
  pub value : String
  pub display : String
  pub dedup_key : String
  pub payload : OzPayload F
  pub sections : List OzSection
  pub gated : Bool
  pub source_tool_id : String
  pub record_status : RecordStatus
  pub edited_value : Option String

section_rows : List OzSection → List OzRow
section_rows [] = []
section_rows (section ∷ sections) = section.rows ++ section_rows sections

module _ {F : Type 0} where
  -- `OzNode::effective_value` and `OzNode::contributes`.
  unfoldable pub effective_value : ViewNode F → String
  effective_value node = unwrap_or node.value node.edited_value

  unfoldable pub contributes : ViewNode F → Bool
  contributes node = not (is_rejected node.record_status)

  -- `rows_of` of relations.rs: the rows of the payload, then those of each section.
  payload_rows : OzPayload F → List OzRow
  payload_rows (OzPayload.username p) = p.profile
  payload_rows (OzPayload.image p) = p.exif ++ p.reverse_matches
  payload_rows (OzPayload.video p) = p.metadata
  payload_rows (OzPayload.coordinate p) = p.map_links
  payload_rows _ = []

  unfoldable pub rows_of : ViewNode F → List OzRow
  unfolding payload_rows section_rows
  rows_of node = payload_rows node.payload ++ section_rows node.sections
