-- ===== src/Relations.antt =====
-- crates/ozint/src/relations.rs: the relation cards that a tree supports. This file has the cards
-- and the readings of a row; the children have the rules, the merge of the cards and what is proved.
pub mod Rules
pub mod Merge
pub mod Candidates
pub mod Cards
pub mod Panel
pub mod Subjects
pub mod Coerce
use ozint.Base.{
  ℕ, String, Bool, true, false, ◌&&◌, ◌||◌, not, if◌then◌else◌, leb, ltb, ◌==◌, string_eq, Eq, ◌≡◌,
  ◌↔◌, arith, Option, none, some, unwrap_or, List, [], ◌∷◌, any, filter, concat, length,
}
use ozint.Base.Text.{trim, to_ascii_lowercase, split_whitespace, join, is_empty}
use ozint.Types.{OzType, OzRow}

pub data RelationKind : Type 0 where
  shared_surname co_listed_address employer_overlap mentioned_in_bio co_signed_record face_match :
      RelationKind

unfoldable pub label : RelationKind → String
label RelationKind.shared_surname = "shared surname"
label RelationKind.co_listed_address = "co-listed address"
label RelationKind.employer_overlap = "employer overlap"
label RelationKind.mentioned_in_bio = "mentioned in a profile"
label RelationKind.co_signed_record = "co-signed record"
label RelationKind.face_match = "face match"

unfoldable pub slug : RelationKind → String
slug RelationKind.shared_surname = "shared-surname"
slug RelationKind.co_listed_address = "co-listed-address"
slug RelationKind.employer_overlap = "employer-overlap"
slug RelationKind.mentioned_in_bio = "mentioned-in-bio"
slug RelationKind.co_signed_record = "co-signed-record"
slug RelationKind.face_match = "face-match"

unfoldable pub RelationKind-discrete : Discrete RelationKind
RelationKind-discrete = hlevel

abbrev pub kind_beq : RelationKind → RelationKind → Bool
kind_beq a b = elim (RelationKind-discrete a b) [ yes _ ↦ true | no _ ↦ false ]

pub kind_beq_iff : (a b : RelationKind) → (kind_beq a b ≡ true) ↔ (a ≡ b)
kind_beq_iff a b = ground arith

instance abbrev pub kind_eq : Eq RelationKind
kind_eq = record { beq = kind_beq; beq_iff = kind_beq_iff }

pub data RelationTier : Type 0 where
  gated high medium low : RelationTier

abbrev pub is_gated_tier : RelationTier → Bool
is_gated_tier RelationTier.gated = true
is_gated_tier _ = false

-- The order of the panel: `rank` of `corroborate` and of `coerce_relation`.
unfoldable pub rank : RelationTier → ℕ
rank RelationTier.gated = 0
rank RelationTier.high = 1
rank RelationTier.medium = 2
rank RelationTier.low = 3

pub record RelationEvidence : Type 0 where
  pub node_id : String
  pub tool_id : String
  pub detail : String
  pub gated : Bool

pub record Relation : Type 0 where
  pub id : String
  pub subject : String
  pub subject_type : OzType
  pub kind : RelationKind
  pub tier : RelationTier
  pub rationale : String
  pub evidence : List RelationEvidence
  pub gated : Bool

pub record RuleWithoutInput : Type 0 where
  pub kind : RelationKind
  pub reason : String

abbrev pub name_labels : List String
name_labels = "name" ∷ "real name" ∷ "full name" ∷ "display name" ∷ []

abbrev pub employer_labels : List String
employer_labels = "company" ∷ "employer" ∷ "organisation" ∷ "organization" ∷ []

abbrev pub role_labels : List String
role_labels = "job title" ∷ "role" ∷ "title" ∷ "position" ∷ []

abbrev pub bio_labels : List String
bio_labels = "bio" ∷ "about" ∷ "description" ∷ []

-- `slice::contains`.
abbrev pub one_of : List String → String → Bool
one_of labels l = any (λ (m : String). m == l) labels

unfoldable pub label_matches : List String → OzRow → Bool
label_matches labels row = one_of labels (to_ascii_lowercase (trim row.label))

unfoldable pub norm : String → String
norm value = to_ascii_lowercase (join " " (split_whitespace value))

last_of : String → List String → String
last_of last [] = last
last_of last (token ∷ tokens) = last_of token tokens

-- The last of at least two words.
surname_from : List String → Option String
unfolding last_of
surname_from (first ∷ second ∷ tokens) = some (norm (last_of second tokens))
surname_from _ = none

unfoldable pub surname_of : String → Option String
unfolding surname_from
surname_of full_name = surname_from (split_whitespace full_name)

unfoldable pub tier_for : RelationKind → Bool → RelationTier
tier_for kind true = RelationTier.gated
tier_for RelationKind.shared_surname false = RelationTier.low
tier_for RelationKind.employer_overlap false = RelationTier.medium
tier_for RelationKind.mentioned_in_bio false = RelationTier.medium
tier_for RelationKind.co_listed_address false = RelationTier.medium
tier_for RelationKind.co_signed_record false = RelationTier.medium
tier_for RelationKind.face_match false = RelationTier.gated

unfoldable pub relation_fallback : RelationKind → String → String
relation_fallback RelationKind.shared_surname detail =
    concat ("Shares the surname of a name found in this tree (" ∷ detail ∷ ")." ∷ [])
relation_fallback RelationKind.employer_overlap detail =
    concat ("Listed at the same employer as another identity in this tree (" ∷ detail ∷ ")." ∷ [])
relation_fallback RelationKind.mentioned_in_bio detail =
    concat ("Named in a profile this investigation already found (" ∷ detail ∷ ")." ∷ [])
relation_fallback RelationKind.co_listed_address detail =
    concat ("Listed at the same address (" ∷ detail ∷ ")." ∷ [])
relation_fallback RelationKind.co_signed_record detail =
    concat ("Appears on the same record (" ∷ detail ∷ ")." ∷ [])
relation_fallback RelationKind.face_match detail =
    concat ("Matched by a gated reverse-image tool (" ∷ detail ∷ "). Treat as gated evidence." ∷ [])

pub record RelationSuggestion : Type 0 where
  pub id : String
  pub rationale : String
  pub tier : Option RelationTier

-- The tier after a suggestion: only an ungated card may go down.
unfoldable pub suggested_tier : Relation → Option RelationTier → RelationTier
unfolding rank
suggested_tier base none = base.tier
suggested_tier base (some tier) =
    if not (is_gated_tier base.tier) && not base.gated && ltb (rank base.tier) (rank tier)
    then tier
    else base.tier

unfoldable pub coerce_relation : Relation → RelationSuggestion → Relation
unfolding suggested_tier
coerce_relation base suggestion =
    let rationale : String = trim suggestion.rationale in
    if suggestion.id == base.id
    then record base {
      rationale = if is_empty rationale then base.rationale else rationale;
      tier = suggested_tier base suggestion.tier;
    }
    else base
