-- ===== src/SubjectFile/Fold.antt =====
-- The fold (`items_for`, `build` and `build_for` of crates/ozint/src/subject_file.rs). The dedup key
-- is normalize.rs's, a parameter.
use ozint.Base.{
  String, Bool, not, ◌+◌, if◌then◌else◌, ◌==◌, string_eq, Option, none, some, is_some, unwrap_or,
  List, [], ◌∷◌, ◌++◌, any, count, filter, flat_map, Map, get, insert, remove,
}
use ozint.Base.Groups.{group_by}
use ozint.Types.{OzType}
use ozint.Types.Defaults.{is_nil}
use ozint.Types.Views.{ViewNode, contributes}
use ozint.SubjectFile.{
  SubjectField, FieldSource, FieldValue, FieldItem, FieldEntry, SubjectFile, SubjectFileView,
  Contribution, field_eq, all_fields, total_slots, label, is_list, dedup_as, same_source, agree_key,
  applies_to,
}
use ozint.SubjectFile.Contributions.{contributions_of, photo_of}

-- `existing.sources`, with a source that is not yet there.
unfoldable pub add_source : FieldSource → List FieldSource → List FieldSource
add_source source sources =
    if any (λ (s : FieldSource). same_source s source) sources
    then sources
    else sources ++ (source ∷ [])

-- Two values that agree, up to case and spaces.
unfoldable pub agrees : String → String → Bool
agrees v w = agree_key v == agree_key w

-- A contribution joins the first value that agrees with it, or is a new value.
unfoldable pub add_value : Contribution → List FieldValue → List FieldValue
unfolding add_source agrees
add_value c [] = record { value = c.value; sources = c.source ∷ [] } ∷ []
add_value c (v ∷ vs) =
    let rest = add_value c vs in
    if agrees v.value c.value
    then record v { sources = add_source c.source v.sources } ∷ vs
    else v ∷ rest

unfoldable pub fold_values : List FieldValue → List Contribution → List FieldValue
unfolding add_value
fold_values values [] = values
fold_values values (c ∷ cs) = fold_values (add_value c values) cs

unfoldable pub item_of : List Contribution → FieldItem
item_of group = record { values = fold_values [] group }

-- `into_values().map(..)`.
unfoldable pub items_of : Map String (List Contribution) → List FieldItem
items_of [] = []
items_of ((key, group) ∷ groups) = item_of group ∷ items_of groups

-- The contributions of each field, `entry(field).or_default().push(c)`, and `remove` for each entry.
unfoldable pub by_field :
    Map SubjectField (List Contribution) → List Contribution → Map SubjectField (List Contribution)
by_field m [] = m
by_field m (c ∷ cs) = by_field (insert c.field (unwrap_or [] (get c.field m) ++ (c ∷ [])) m) cs

abbrev pub is_filled : FieldEntry → Bool
is_filled entry = not (is_nil entry.items)

-- What the contributing nodes give, in their order.
unfoldable pub all_contributions : {F : Type 0} → List (ViewNode F) → List Contribution
all_contributions nodes = flat_map contributions_of (filter contributes nodes)

module _ (dedup_key : OzType → String → String) where
  unfoldable pub item_key : SubjectField → String → String
  unfolding is_list dedup_as
  item_key field value =
      if is_list field
      then elim (dedup_as field) [ none ↦ agree_key value | some oz_type ↦ dedup_key oz_type value ]
      else ""

  abbrev pub contribution_key : SubjectField → Contribution → String
  contribution_key field c = item_key field c.value

  unfoldable pub items_for : SubjectField → List Contribution → List FieldItem
  items_for field contributions =
      if is_nil contributions
      then []
      else items_of (group_by (contribution_key field) contributions)

  unfoldable pub entry_for : SubjectField → List Contribution → FieldEntry
  unfolding items_for label is_list
  entry_for field contributions = record {
    field = field;
    label = label field;
    is_list = is_list field;
    items = items_for field contributions;
  }

  unfoldable pub entries :
      List SubjectField → Map SubjectField (List Contribution) → List FieldEntry
  unfolding entry_for
  entries [] m = []
  entries (field ∷ fields) m =
      entry_for field (unwrap_or [] (get field m)) ∷ entries fields (remove field m)

  module _ {F : Type 0} where
    unfoldable pub build : List (ViewNode F) → SubjectFile
    unfolding entries by_field all_contributions
    build nodes =
        let fields : List FieldEntry = entries all_fields (by_field [] (all_contributions nodes)) in
        let photo : Option FieldValue = photo_of (filter contributes nodes) in
        record {
          fields = fields;
          photo = photo;
          filled = count is_filled fields + (if is_some photo then 1 else 0);
          total = total_slots;
        }

    unfoldable pub build_for : OzType → List (ViewNode F) → SubjectFileView
    build_for root_type nodes =
        if applies_to root_type
        then SubjectFileView.file (build nodes)
        else SubjectFileView.not_applicable root_type
