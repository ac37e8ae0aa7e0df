-- ===== src/Relations/Rules.antt =====
-- The rules of `infer` (crates/ozint/src/relations.rs): each gives the cards that the contributing
-- nodes support. The regular expressions' matches, the classifier and the dedup key are parameters.
use Prim.Native.Char.{Char, code}
use Prim.Native.String.{len}
use ozint.Base.{
  String, Bool, false, ◌&&◌, ◌||◌, not, if◌then◌else◌, leb, nat_eq, ◌==◌, string_eq, Option, none,
  some, unwrap_or, List, [], ◌∷◌, ◌++◌, map, filter, find, filter_map, flat_map, concat,
}
use ozint.Base.Text.{trim, trim_start_matches, trim_end_matches, is_empty, replace}
use ozint.Types.{OzType, OzRow}
use ozint.Types as types
use ozint.Types.Views.{ViewNode, rows_of}
use ozint.Relations.{
  Relation, RelationKind, RelationEvidence, name_labels, employer_labels, role_labels, bio_labels,
  label_matches, norm, surname_of, tier_for, relation_fallback, slug, one_of,
}

-- `email_matches` and `handle_captures` are the two regular expressions of `mentions_in` run over a
-- text, and the others are `classify::classify` and `normalize::dedup_key`.
pub record Readers : Type 0 where
  pub email_matches : String → List String
  pub handle_captures : String → List String
  pub classify : String → OzType
  pub dedup_key : OzType → String → String

pub record Identity : Type 0 where
  pub name : String
  pub node_id : String
  pub tool_id : String
  pub gated : Bool
  pub employer : Option String
  pub role : Option String

-- `.filter(|v| !v.is_empty())`.
nonempty : String → Option String
nonempty v = if is_empty v then none else some v

is_at : Char → Bool
is_at c = nat_eq (code c) 64

-- The first row with one of the labels, read by `clean`.
first_value : List String → (String → String) → List OzRow → Option String
unfolding nonempty
first_value labels clean rows = elim (find (label_matches labels) rows) [
  | none ↦ none
  | some row ↦ nonempty (clean row.value)
]

employer_of : List OzRow → Option String
unfolding first_value is_at
employer_of rows = first_value employer_labels (λ v. trim_start_matches is_at (trim v)) rows

role_of : List OzRow → Option String
unfolding first_value
role_of rows = first_value role_labels trim rows

module _ {F : Type 0} where
  unfoldable pub tool_of : ViewNode F → OzRow → String
  tool_of node row = unwrap_or node.source_tool_id row.source_tool_id

  unfoldable pub identity_of : ViewNode F → OzRow → Option Identity
  unfolding employer_of role_of tool_of
  identity_of node row =
      if not (label_matches name_labels row) || is_empty (trim row.value)
      then none
      else some (record {
        name = trim row.value;
        node_id = node.id;
        tool_id = tool_of node row;
        gated = node.gated || row.gated;
        employer = employer_of (rows_of node);
        role = role_of (rows_of node);
      })

  unfoldable pub identities : List (ViewNode F) → List Identity
  unfolding identity_of
  identities nodes =
      flat_map (λ (node : ViewNode F). filter_map (identity_of node) (rows_of node)) nodes

-- What each of two identities gives to a card.
evidence_of : Identity → String → RelationEvidence
evidence_of p detail = record {
  node_id = p.node_id;
  tool_id = p.tool_id;
  detail = detail;
  gated = p.gated;
}

-- A card about the second of two identities.
unfoldable pub pair_card : RelationKind → Identity → Identity → String → String → String → Relation
unfolding evidence_of slug norm tier_for relation_fallback
pair_card kind a b rationale_detail a_detail b_detail =
    let either_gated : Bool = a.gated || b.gated in
    record {
      id = concat (slug kind ∷ ":" ∷ norm b.name ∷ []);
      subject = b.name;
      subject_type = OzType.name;
      kind = kind;
      tier = tier_for kind either_gated;
      rationale = relation_fallback kind rationale_detail;
      evidence = evidence_of a a_detail ∷ evidence_of b b_detail ∷ [];
      gated = either_gated;
    }

unfoldable pub same_name : Identity → Identity → Bool
same_name a b = norm a.name == norm b.name

-- Two surnames that are both there and equal.
unfoldable pub same_surname : Option String → Option String → Bool
same_surname (some s) (some t) = s == t
same_surname _ _ = false

unfoldable pub surname_card : Identity → Identity → Option Relation
unfolding same_name same_surname pair_card
surname_card a b =
    if not (same_name a b) && same_surname (surname_of a.name) (surname_of b.name)
    then some (
        pair_card RelationKind.shared_surname a b (concat (a.name ∷ " and " ∷ b.name ∷ [])) a.name
          b.name)
    else none

unfoldable pub overlap_detail :
    Identity → Identity → String → Option String → Option String → String
overlap_detail a b ea (some ra) (some rb) =
    concat (ea ∷ " — " ∷ a.name ∷ " as " ∷ ra ∷ ", " ∷ b.name ∷ " as " ∷ rb ∷ [])
overlap_detail a b ea _ _ = concat (ea ∷ " — " ∷ a.name ∷ " and " ∷ b.name ∷ [])

unfoldable pub overlap_card : Identity → Identity → Option String → Option String → Option Relation
unfolding same_name overlap_detail pair_card
overlap_card a b (some ea) (some eb) =
    if not (norm ea == norm eb) || same_name a b
    then none
    else some (
        pair_card RelationKind.employer_overlap a b (overlap_detail a b ea a.role b.role)
          (concat (a.name ∷ " @ " ∷ ea ∷ [])) (concat (b.name ∷ " @ " ∷ eb ∷ [])))
overlap_card a b _ _ = none

unfoldable pub employer_card : Identity → Identity → Option Relation
unfolding overlap_card
employer_card a b = overlap_card a b a.employer b.employer

-- A rule over every two identities, the first before the second.
unfoldable pub for_pairs : (Identity → Identity → Option Relation) → List Identity → List Relation
for_pairs rule [] = []
for_pairs rule (a ∷ people) = filter_map (rule a) people ++ for_pairs rule people

is_dot_or_dash : Char → Bool
is_dot_or_dash c = nat_eq (code c) 46 || nat_eq (code c) 45

blank_all : List String → String → String
blank_all [] text = text
blank_all (m ∷ ms) text = blank_all ms (replace text m " ")

long_handle : String → Option String
unfolding is_dot_or_dash
long_handle capture =
    let handle : String = trim_end_matches is_dot_or_dash capture in
    if leb 2 (len handle) then some handle else none

-- The key of the visited set, as the card's rule compares it.
unfoldable pub tree_key : OzType → String → String
tree_key oz_type key = concat (types.code oz_type ∷ "|" ∷ key ∷ [])

unfoldable pub in_tree : {F : Type 0} → List (ViewNode F) → List String
unfolding tree_key
in_tree live = map (λ (n : ViewNode _). tree_key n.oz_type n.dedup_key) live

module _ (readers : Readers) where
  unfoldable pub mentions_in : String → List String
  unfolding blank_all long_handle
  mentions_in text =
      let emails : List String = readers.email_matches text in
      emails ++ filter_map long_handle (readers.handle_captures (blank_all emails text))

  unfoldable pub mention_key : String → String
  mention_key mention =
      let oz_type : OzType = readers.classify mention in
      tree_key oz_type (readers.dedup_key oz_type mention)

  module _ {F : Type 0} where
    unfoldable pub mention_card : List String → ViewNode F → OzRow → String → Option Relation
    unfolding tool_of mention_key slug norm tier_for relation_fallback
    mention_card known node row mention =
        let card_gated : Bool = node.gated || row.gated in
        if one_of known (mention_key mention)
        then none
        else some (record {
          id = concat (slug RelationKind.mentioned_in_bio ∷ ":" ∷ norm mention ∷ []);
          subject = mention;
          subject_type = readers.classify mention;
          kind = RelationKind.mentioned_in_bio;
          tier = tier_for RelationKind.mentioned_in_bio card_gated;
          rationale =
              relation_fallback RelationKind.mentioned_in_bio
                (concat (row.label ∷ " on " ∷ node.display ∷ []));
          evidence =
              record {
                node_id = node.id;
                tool_id = tool_of node row;
                detail = trim row.value;
                gated = card_gated;
              }
              ∷ [];
          gated = card_gated;
        })

    unfoldable pub row_mentions : List String → ViewNode F → OzRow → List Relation
    unfolding mention_card mentions_in
    row_mentions known node row = filter_map (mention_card known node row) (mentions_in row.value)

    unfoldable pub mention_cards : List String → List (ViewNode F) → List Relation
    unfolding row_mentions
    mention_cards known live =
        flat_map
          (λ (node : ViewNode F).
            flat_map (row_mentions known node) (filter (label_matches bio_labels) (rows_of node)))
          live
