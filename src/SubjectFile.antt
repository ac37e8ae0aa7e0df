-- ===== src/SubjectFile.antt =====
-- crates/ozint/src/subject_file.rs: the twelve fields of the subject file. This file has the fields
-- and the values; the children have the contributions of a node, the fold and what is proved.
pub mod Contributions
pub mod Fold
pub mod Values
pub mod Items
pub mod Rail
use ozint.Base.{
  ℕ, String, Bool, true, false, ◌&&◌, ltb, ◌==◌, string_eq, Eq, ◌≡◌, ◌↔◌, arith, refl, Option, none,
  some, List, [], ◌∷◌, length,
}
use ozint.Base.Text.{trim, to_ascii_lowercase, split_whitespace, join}
use ozint.Types.{OzType}

pub data SubjectField : Type 0 where
  full_name age city postal_address employer role emails phones handles profiles other_presence
        media :
      SubjectField

unfoldable pub SubjectField-discrete : Discrete SubjectField
SubjectField-discrete = hlevel

abbrev pub field_beq : SubjectField → SubjectField → Bool
field_beq a b = elim (SubjectField-discrete a b) [ yes _ ↦ true | no _ ↦ false ]

pub field_beq_iff : (a b : SubjectField) → (field_beq a b ≡ true) ↔ (a ≡ b)
field_beq_iff a b = ground arith

instance abbrev pub field_eq : Eq SubjectField
field_eq = record { beq = field_beq; beq_iff = field_beq_iff }

-- `SubjectField::ALL`.
abbrev pub all_fields : List SubjectField
all_fields =
    SubjectField.full_name ∷ SubjectField.age ∷ SubjectField.city ∷ SubjectField.postal_address
    ∷ SubjectField.employer ∷ SubjectField.role ∷ SubjectField.emails ∷ SubjectField.phones
    ∷ SubjectField.handles ∷ SubjectField.profiles ∷ SubjectField.other_presence
    ∷ SubjectField.media ∷ []

unfoldable pub label : SubjectField → String
label SubjectField.full_name = "FULL NAME"
label SubjectField.age = "AGE"
label SubjectField.city = "CITY"
label SubjectField.postal_address = "POSTAL ADDRESS"
label SubjectField.employer = "EMPLOYER"
label SubjectField.role = "ROLE"
label SubjectField.emails = "EMAIL ADDRESSES"
label SubjectField.phones = "PHONE NUMBERS"
label SubjectField.handles = "HANDLES"
label SubjectField.profiles = "PROFILES"
label SubjectField.other_presence = "OTHER PRESENCE"
label SubjectField.media = "MEDIA"

unfoldable pub is_list : SubjectField → Bool
is_list SubjectField.emails = true
is_list SubjectField.phones = true
is_list SubjectField.handles = true
is_list SubjectField.profiles = true
is_list SubjectField.other_presence = true
is_list SubjectField.media = true
is_list _ = false

unfoldable pub dedup_as : SubjectField → Option OzType
dedup_as SubjectField.emails = some OzType.email
dedup_as SubjectField.phones = some OzType.phone
dedup_as SubjectField.handles = some OzType.username
dedup_as _ = none

pub record FieldSource : Type 0 where
  pub node_id : String
  pub tool_id : String
  pub gated : Bool
  pub corrected : Bool

unfoldable pub bool_beq : Bool → Bool → Bool
bool_beq true b = b
bool_beq false true = false
bool_beq false false = true

-- The derived `PartialEq` of `FieldSource`.
unfoldable pub same_source : FieldSource → FieldSource → Bool
unfolding bool_beq
same_source a b =
    (a.node_id == b.node_id)
    && (a.tool_id == b.tool_id)
    && bool_beq a.gated b.gated
    && bool_beq a.corrected b.corrected

pub record FieldValue : Type 0 where
  pub value : String
  pub sources : List FieldSource

pub record FieldItem : Type 0 where
  pub values : List FieldValue

unfoldable pub is_conflicted : FieldItem → Bool
is_conflicted item = ltb 1 (length item.values)

pub record FieldEntry : Type 0 where
  pub field : SubjectField
  pub label : String
  pub is_list : Bool
  pub items : List FieldItem

pub record SubjectFile : Type 0 where
  pub fields : List FieldEntry
  pub photo : Option FieldValue
  pub filled : ℕ
  pub total : ℕ

-- `TOTAL_SLOTS`.
abbrev pub total_slots : ℕ
total_slots = 13

unfoldable pub applies_to : OzType → Bool
applies_to OzType.username = true
applies_to OzType.email = true
applies_to OzType.name = true
applies_to OzType.phone = true
applies_to _ = false

pub data SubjectFileView : Type 0 where
  file : SubjectFile → SubjectFileView
  not_applicable : (root_type : OzType) → SubjectFileView

unfoldable pub lower : String → String
lower l = to_ascii_lowercase (trim l)

unfoldable pub agree_key : String → String
agree_key value = to_ascii_lowercase (join " " (split_whitespace value))

pub record Contribution : Type 0 where
  pub field : SubjectField
  pub value : String
  pub source : FieldSource

-- What a node's own value feeds.
unfoldable pub field_for_type : OzType → Option SubjectField
field_for_type OzType.email = some SubjectField.emails
field_for_type OzType.phone = some SubjectField.phones
field_for_type OzType.username = some SubjectField.handles
field_for_type OzType.image = some SubjectField.media
field_for_type OzType.video = some SubjectField.media
field_for_type OzType.ip = some SubjectField.other_presence
field_for_type OzType.domain = some SubjectField.other_presence
field_for_type OzType.coordinate = none
field_for_type OzType.name = none
field_for_type OzType.directory = none
field_for_type OzType.cve = none
field_for_type OzType.hash = none
