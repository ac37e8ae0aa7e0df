-- ===== src/Types.antt =====
-- crates/ozint/src/types.rs: the entity types and the parts of a node that the engine reads.

pub mod Payloads
pub mod Defaults
pub mod Views
use native.Mathlib.Omega.{arith}
use ozint.Base.{
  ℕ, String, Bool, true, false, ◌&&◌, ◌≡◌, ◌↔◌, Eq, ◌==◌, string_eq, Option, List, Map,
}

pub data OzType : Type 0 where
  username email phone ip domain hash image video coordinate cve directory name : OzType

unfoldable pub OzType-discrete : Discrete OzType
OzType-discrete = hlevel

abbrev oz_type_beq : OzType → OzType → Bool
oz_type_beq a b = elim (OzType-discrete a b) [ yes _ ↦ true | no _ ↦ false ]

pub oz_type_beq_iff : (a b : OzType) → (oz_type_beq a b ≡ true) ↔ (a ≡ b)
oz_type_beq_iff a b = ground arith

instance abbrev pub oz_type_eq : Eq OzType
oz_type_eq = record { beq = oz_type_beq; beq_iff = oz_type_beq_iff }

-- `OzType::code`.
unfoldable pub code : OzType → String
code username = "USR"
code email = "EML"
code phone = "TEL"
code ip = "NET"
code domain = "DOM"
code hash = "SHA"
code image = "IMG"
code video = "VID"
code coordinate = "GEO"
code cve = "CVE"
code directory = "DIR"
code name = "NAM"

unfoldable pub is_directory_only : OzType → Bool
is_directory_only directory = true
is_directory_only name = true
is_directory_only _ = false

pub data NodeStatus : Type 0 where
  idle running settled empty degraded failed aborted : NodeStatus

pub data SignalTone : Type 0 where
  neutral ok warn risk critical gated : SignalTone

pub record OzRow : Type 0 where
  pub label : String
  pub value : String
  pub href : Option String
  pub at : Option ℕ
  pub tone : Option SignalTone
  pub source_tool_id : Option String
  pub media_id : Option String
  pub gated : Bool

pub data SectionKind : Type 0 where
  key_value tags timeline links media : SectionKind

pub record OzSection : Type 0 where
  pub id : String
  pub label : String
  pub kind : SectionKind
  pub rows : List OzRow

pub record Corroboration : Type 0 where
  pub tool_id : String
  pub method : String
  pub parent_node_id : String
  pub layer_id : String
  pub found_at : ℕ
  pub gated : Bool

unfoldable pub same_route_as : Corroboration → String → String → Bool
same_route_as c tool_id parent_node_id =
    (c.tool_id == tool_id) && (c.parent_node_id == parent_node_id)

-- A JSON value under a key is its serialised text; an object is the map of its keys.
abbrev pub Json : Type 0
Json = String

abbrev pub JsonObject : Type 0
JsonObject = Map String Json

-- The part of `Provenance` that a layer writes.
pub record Provenance : Type 0 where
  pub found_via_parent_id : Option String
  pub source_tool_id : String
  pub method : String
  pub retrieved_at : ℕ
  pub tool_chain : List String
  pub gated : Bool

-- Signal chips, the analyst's edits and the creation instant are not among the fields.
pub record OzNode : Type 0 where
  pub id : String
  pub investigation_id : String
  pub parent_id : Option String
  pub layer_id : Option String
  pub ordinal : ℕ
  pub depth : ℕ
  pub oz_type : OzType
  pub value : String
  pub display : String
  pub dedup_key : String
  pub payload : JsonObject
  pub sections : List OzSection
  pub gated : Bool
  pub status : NodeStatus
  pub provenance : Provenance
  pub already_in_tree : Option String
  pub corroborations : List Corroboration
