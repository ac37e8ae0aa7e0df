-- ===== src/Examples/Panels.antt =====
-- The relation cards and the subject file of a tree of three nodes.
use ozint.Base.{
  ℕ, ◌≤◌, String, Bool, true, false, ◌≡◌, refl, none, some, Option, List, [], ◌∷◌, any, All, concat,
  count, filter, length, map, if◌then◌else◌,
}
use ozint.Base.Groups.{has_key}
use ozint.Base.Sorting.{IsSorted}
use ozint.Types.{OzType, OzRow}
use ozint.Types.Payloads.{OzPayload}
use ozint.Types.Views.{ViewNode, contributes}
use ozint.Store.Edits.{RecordStatus}
use ozint.Relations.{
  Relation, RelationTier, RelationKind, RelationKind-discrete, RelationSuggestion, coerce_relation,
  rank, norm,
}
use ozint.Relations.Rules.{Readers}
use ozint.Relations.Merge.{RelationReport, infer, candidates, corroborate, subject_key, before}
use ozint.Relations.Panel.{HasMergedTier, IsLiveCard, infer-HasMergedTier, infer-IsLiveCard}
use ozint.Relations.Subjects.{corroborate-count, corroborate-IsSorted}
use ozint.Relations.Coerce.{coerce_relation-asserts}
use ozint.SubjectFile.{SubjectField, FieldItem, Contribution, FieldSource, is_list, all_fields}
use ozint.SubjectFile.Fold.{build, all_contributions, entry_for, items_for}
use ozint.SubjectFile.Values.{IsDistinct}
use ozint.SubjectFile.Items.{items_for-IsDistinct, items_for-length_le_one}
use ozint.SubjectFile.Rail.{in_file, has_field, build-reports, build-fields}

abbrev row : String → String → OzRow
row label value = record {
  label = label;
  value = value;
  href = none;
  at = none;
  tone = none;
  source_tool_id = none;
  media_id = none;
  gated = false;
}

abbrev node : String → RecordStatus → Bool → List OzRow → ViewNode ℕ
node id status gated rows = record {
  id = id;
  oz_type = OzType.username;
  value = id;
  display = id;
  dedup_key = id;
  payload =
      OzPayload.username
        (record { hits = []; sites_checked = 1; sites_confirmed = 1; profile = rows });
  sections = [];
  gated = gated;
  source_tool_id = "github";
  record_status = status;
  edited_value = none;
}

abbrev tree : List (ViewNode ℕ)
tree =
    node "n1" RecordStatus.as_returned false (row "Name" "Ada King" ∷ row "Company" "@Acme" ∷ [])
    ∷ node "n2" RecordStatus.as_returned true (row "Name" "Bea King" ∷ row "Company" "acme" ∷ [])
    ∷ node "n3" (RecordStatus.rejected 7) false (row "Name" "Cleo King" ∷ [])
    ∷ []

-- No text names anyone, and a value is a username whose key is itself.
abbrev readers : Readers
readers = record {
  email_matches = λ text. [];
  handle_captures = λ text. [];
  classify = λ text. OzType.username;
  dedup_key = λ t v. v;
}

infer-HasMergedTier_example :
    (report : RelationReport) × (infer readers tree ≡ some report
      × All (HasMergedTier (candidates readers (filter contributes tree))) report.relations)
infer-HasMergedTier_example = infer-HasMergedTier readers tree

infer-IsLiveCard_example :
    (report : RelationReport) × (infer readers tree ≡ some report
      × All (IsLiveCard readers (filter contributes tree)) report.relations)
infer-IsLiveCard_example = infer-IsLiveCard readers tree

abbrev cards_of : Option RelationReport → List String
cards_of none = []
cards_of (some report) = map (λ (r : Relation). r.rationale) report.relations

-- Two rules point at the second person, and the rejected node gives nothing.
one_card :
    cards_of (infer readers tree)
    ≡ "Shares the surname of a name found in this tree (Ada King and Bea King). Corroborated by 2 independent rules (employer overlap, shared surname)."
      ∷ []
unfolding infer RelationKind-discrete contributes before candidates corroborate norm rank
    ozint.Store.Edits.is_rejected ozint.Types.code ozint.Types.Views.rows_of
    ozint.Base.Groups.group_by ozint.Base.Groups.push_all ozint.Base.Groups.push_entry
    ozint.Base.Sorting.insert_all ozint.Base.Sorting.insert_sorted ozint.Base.Sorting.sort_by
    ozint.Base.Text.decimal ozint.Base.Text.join ozint.Base.Text.replace
    ozint.Base.Text.split_whitespace ozint.Base.Text.to_ascii_lowercase ozint.Base.Text.trim
    ozint.Base.Text.trim_end_matches ozint.Base.Text.trim_start_matches ozint.Relations.label
    ozint.Relations.label_matches ozint.Relations.relation_fallback ozint.Relations.slug
    ozint.Relations.surname_of ozint.Relations.tier_for ozint.Relations.Merge.has_kind
    ozint.Relations.Merge.kinds_of ozint.Relations.Merge.merge_all ozint.Relations.Merge.merge_first
    ozint.Relations.Merge.merge_group ozint.Relations.Merge.merged_rationale
    ozint.Relations.Merge.merged_tier ozint.Relations.Merge.rules_without_input
    ozint.Relations.Rules.employer_card ozint.Relations.Rules.for_pairs
    ozint.Relations.Rules.identities ozint.Relations.Rules.identity_of ozint.Relations.Rules.in_tree
    ozint.Relations.Rules.mention_cards ozint.Relations.Rules.mentions_in
    ozint.Relations.Rules.overlap_card ozint.Relations.Rules.overlap_detail
    ozint.Relations.Rules.pair_card ozint.Relations.Rules.row_mentions
    ozint.Relations.Rules.same_name ozint.Relations.Rules.same_surname
    ozint.Relations.Rules.surname_card ozint.Relations.Rules.tool_of
one_card = refl

corroborate-count_example :
    (cards : List Relation) × ((corroborate (candidates readers tree) ≡ some cards)
      × (count (has_key subject_key "bea king") cards
          ≡ (if any (has_key subject_key "bea king") (candidates readers tree) then 1 else 0)))
corroborate-count_example = corroborate-count (candidates readers tree) "bea king"

corroborate-IsSorted_example :
    (cards : List Relation) × ((corroborate (candidates readers tree) ≡ some cards)
      × IsSorted before cards)
corroborate-IsSorted_example = corroborate-IsSorted (candidates readers tree)

abbrev card : Relation
card = record {
  id = "shared-surname:bea king";
  subject = "Bea King";
  subject_type = OzType.name;
  kind = RelationKind.shared_surname;
  tier = RelationTier.medium;
  rationale = "Shares a surname.";
  evidence = [];
  gated = false;
}

abbrev suggestion : RelationSuggestion
suggestion = record {
  id = "shared-surname:bea king";
  rationale = " They share a surname. ";
  tier = some RelationTier.high;
}

coerce_relation-asserts_example :
    let coerced : Relation = coerce_relation card suggestion in
    (coerced.id ≡ card.id)
    × (coerced.subject ≡ card.subject)
    × (coerced.subject_type ≡ card.subject_type)
    × (coerced.kind ≡ card.kind)
    × (coerced.evidence ≡ card.evidence)
    × (coerced.gated ≡ card.gated)
    × (rank card.tier ≤ rank coerced.tier)
coerce_relation-asserts_example = coerce_relation-asserts card suggestion

abbrev key : OzType → String → String
key t v = v

build-reports_example :
    All (λ (c : Contribution). in_file c (build key tree).fields ≡ true) (all_contributions tree)
build-reports_example = build-reports key tree

build-fields_example :
    (build key tree).fields
    ≡ map (λ f. entry_for key f (filter (has_field f) (all_contributions tree))) all_fields
build-fields_example = build-fields key tree

abbrev source : FieldSource
source = record { node_id = "n1"; tool_id = "github"; gated = false; corrected = false }

abbrev cities : List Contribution
cities =
    record { field = SubjectField.city; value = "Paris"; source = source }
    ∷ record { field = SubjectField.city; value = "Lyon"; source = source }
    ∷ record { field = SubjectField.city; value = "paris"; source = source }
    ∷ []

items_for-IsDistinct_example :
    All (λ (item : FieldItem). IsDistinct item.values) (items_for key SubjectField.city cities)
items_for-IsDistinct_example = items_for-IsDistinct key SubjectField.city cities

items_for-length_le_one_example : length (items_for key SubjectField.city cities) ≤ 1
unfolding is_list
items_for-length_le_one_example = items_for-length_le_one key SubjectField.city cities refl
