-- ===== src/SubjectFile/Contributions.antt =====
-- What a node contributes to the subject file (`contributions_of` and `photo_of` of
-- crates/ozint/src/subject_file.rs).
use ozint.Base.{
  String, Bool, ◌||◌, if◌then◌else◌, ◌==◌, string_eq, Option, none, some, is_some, unwrap_or, List,
  [], ◌∷◌, ◌++◌, any, flat_map, Map, get,
}
use ozint.Base.Text.{trim, is_empty}
use ozint.Types.{OzRow}
use ozint.Types.Payloads.{OzPayload}
use ozint.Types.Views.{ViewNode, effective_value, rows_of}
use ozint.SubjectFile.{SubjectField, FieldSource, FieldValue, Contribution, lower, field_for_type}

abbrev pub label_fields : Map String SubjectField
label_fields =
    ("location", SubjectField.city)
    ∷ ("city", SubjectField.city)
    ∷ ("company", SubjectField.employer)
    ∷ ("employer", SubjectField.employer)
    ∷ ("organisation", SubjectField.employer)
    ∷ ("organization", SubjectField.employer)
    ∷ ("job title", SubjectField.role)
    ∷ ("role", SubjectField.role)
    ∷ ("title", SubjectField.role)
    ∷ ("position", SubjectField.role)
    ∷ ("email", SubjectField.emails)
    ∷ ("handle", SubjectField.handles)
    ∷ []

abbrev pub profile_labels : List String
profile_labels =
    "github" ∷ "bluesky" ∷ "mastodon" ∷ "gravatar" ∷ "hacker news" ∷ "youtube" ∷ "blog" ∷ []

abbrev pub photo_labels : List String
photo_labels = "avatar" ∷ []

abbrev one_of : List String → String → Bool
one_of labels l = any (λ (m : String). m == l) labels

-- The closure `push`: a value of spaces alone is dropped.
push : SubjectField → String → FieldSource → List Contribution
push field value source =
    let trimmed : String = trim value in
    if is_empty trimmed then [] else record { field = field; value = trimmed; source = source } ∷ []

module _ {F : Type 0} where
  unfoldable pub source_of : ViewNode F → Option OzRow → FieldSource
  source_of node none = record {
    node_id = node.id;
    tool_id = node.source_tool_id;
    gated = node.gated;
    corrected = is_some node.edited_value;
  }
  source_of node (some row) = record {
    node_id = node.id;
    tool_id = unwrap_or node.source_tool_id row.source_tool_id;
    gated = node.gated || row.gated;
    corrected = is_some node.edited_value;
  }

  -- The node's own value: the correction, or else what it displays.
  unfoldable pub own_value : ViewNode F → String
  unfolding effective_value
  own_value node =
      if is_some node.edited_value
      then effective_value node
      else if is_empty (trim node.display)
      then effective_value node
      else node.display

  own_contribution : ViewNode F → Option SubjectField → List Contribution
  unfolding push own_value source_of
  own_contribution node none = []
  own_contribution node (some field) = push field (own_value node) (source_of node none)

  place_of : OzPayload F → Option String
  place_of (OzPayload.coordinate geo) = geo.place
  place_of _ = none

  place_contribution : ViewNode F → List Contribution
  unfolding push source_of place_of
  place_contribution node = elim (place_of node.payload) [
    | none ↦ []
    | some place ↦ push SubjectField.postal_address (trim place) (source_of node none)
  ]

  row_contribution : ViewNode F → OzRow → List Contribution
  unfolding push source_of
  row_contribution node row =
      let l : String = lower row.label in
      let source : FieldSource = source_of node (some row) in
      if one_of photo_labels l
      then []
      else if l == "name"
      then push SubjectField.full_name row.value source
      else if one_of profile_labels l
      then push SubjectField.profiles (unwrap_or row.value row.href) source
      else elim (get l label_fields) [ none ↦ [] | some field ↦ push field row.value source ]

  unfoldable pub contributions_of : ViewNode F → List Contribution
  unfolding own_contribution place_contribution row_contribution field_for_type
  contributions_of node =
      own_contribution node (field_for_type node.oz_type)
      ++ (place_contribution node ++ flat_map (row_contribution node) (rows_of node))

  row_photo : ViewNode F → OzRow → Option FieldValue
  unfolding source_of
  row_photo node row =
      let value : String = trim (unwrap_or row.value row.href) in
      if one_of photo_labels (lower row.label)
      then (if is_empty value
          then none
          else some (record { value = value; sources = source_of node (some row) ∷ [] }))
      else none

  -- The first photo of the rows, and of the nodes.
  photo_in : ViewNode F → List OzRow → Option FieldValue
  unfolding row_photo
  photo_in node [] = none
  photo_in node (row ∷ rows) =
      let rest = photo_in node rows in
      elim (row_photo node row) [ none ↦ rest | some photo ↦ some photo ]

  unfoldable pub photo_of : List (ViewNode F) → Option FieldValue
  unfolding photo_in
  photo_of [] = none
  photo_of (node ∷ nodes) =
      let rest = photo_of nodes in
      elim (photo_in node (rows_of node)) [ none ↦ rest | some photo ↦ some photo ]
