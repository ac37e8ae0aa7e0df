-- ===== src/Relations/Merge.antt =====
-- `corroborate`, `rules_without_input` and `infer` of crates/ozint/src/relations.rs: one card a
-- subject, in the panel's order.
use ozint.Base.{
  String, Bool, ◌&&◌, ◌||◌, if◌then◌else◌, ltb, nat_eq, ◌==◌, string_eq, Option, none, some,
  is_some, List, [], ◌∷◌, ◌++◌, map, any, filter, concat, count, length, Map,
}
use ozint.Base.Text.{join, decimal}
use ozint.Base.Order.{str_ltb}
use ozint.Base.Groups.{group_by}
use ozint.Base.Sorting.{sort_by}
use ozint.Types.Views.{ViewNode, contributes}
use ozint.Relations.{
  Relation, RelationKind, RelationTier, RuleWithoutInput, kind_eq, label, norm, rank,
}
use ozint.Relations.Rules.{
  Readers, Identity, identities, for_pairs, surname_card, employer_card, in_tree, mention_cards,
}

unfoldable pub has_kind : RelationKind → List RelationKind → Bool
has_kind k kinds = any (λ (j : RelationKind). j == k) kinds

-- The set of the kinds in a group.
unfoldable pub kinds_of : List Relation → List RelationKind
unfolding has_kind
kinds_of [] = []
kinds_of (r ∷ group) =
    let kinds = kinds_of group in if has_kind r.kind kinds then kinds else r.kind ∷ kinds

abbrev pub is_gated_card : Relation → Bool
is_gated_card r = r.gated

kind_names : List RelationKind → String
kind_names kinds = join ", " (sort_by str_ltb (map label kinds))

unfoldable pub merged_rationale : String → List RelationKind → String
unfolding kind_names
merged_rationale rationale kinds =
    if ltb 1 (length kinds)
    then concat (
        rationale
        ∷ " Corroborated by "
        ∷ decimal (length kinds)
        ∷ " independent rules ("
        ∷ kind_names kinds
        ∷ ")."
        ∷ [])
    else rationale

unfoldable pub merged_tier : Bool → List RelationKind → RelationTier → RelationTier
merged_tier gated kinds tier =
    if gated then RelationTier.gated else if ltb 1 (length kinds) then RelationTier.high else tier

-- The card of a group that begins with `first`.
unfoldable pub merge_first : Relation → List Relation → Relation
unfolding kinds_of merged_rationale merged_tier
merge_first first rest =
    let kinds : List RelationKind = kinds_of (first ∷ rest) in
    let gated : Bool = any is_gated_card (first ∷ rest) in
    record first {
      rationale = merged_rationale first.rationale kinds;
      gated = gated;
      tier = merged_tier gated kinds first.tier;
    }

-- `none` is the panic of `expect`, on a group that is empty.
unfoldable pub merge_group : List Relation → Option Relation
merge_group [] = none
merge_group (first ∷ rest) = some (merge_first first rest)

unfoldable pub merge_all : Map String (List Relation) → Option (List Relation)
merge_all [] = some []
merge_all ((subject, group) ∷ groups) =
    let rest = merge_all groups in
    elim (merge_group group) [
      | none ↦ none
      | some card ↦ elim rest [ none ↦ none | some cards ↦ some (card ∷ cards) ]
    ]

-- The panel's order: by rank, then by subject.
unfoldable pub before : Relation → Relation → Bool
unfolding rank
before a b =
    ltb (rank a.tier) (rank b.tier)
    || (nat_eq (rank a.tier) (rank b.tier) && str_ltb a.subject b.subject)

abbrev pub subject_key : Relation → String
subject_key r = norm r.subject

unfoldable pub corroborate : List Relation → Option (List Relation)
corroborate candidates = elim (merge_all (group_by subject_key candidates)) [
  | none ↦ none
  | some cards ↦ some (sort_by before cards)
]

abbrev has_employer : Identity → Bool
has_employer p = is_some p.employer

unfoldable pub rules_without_input : List Identity → List RuleWithoutInput
rules_without_input people =
    (record {
      kind = RelationKind.co_listed_address;
      reason =
          "no source in this build returns a street-level address — the only locations available are city-level, which cannot establish a shared address";
    }
      ∷ record {
        kind = RelationKind.co_signed_record;
        reason = "no public-records source is catalogued in this build";
      }
      ∷ record {
        kind = RelationKind.face_match;
        reason = "no gated reverse-image tool is catalogued in this build";
      }
      ∷ [])
    ++ (if ltb (length people) 2
        then record {
          kind = RelationKind.shared_surname;
          reason =
              "fewer than two distinct names have been found in this tree, so there was nothing to compare";
        }
          ∷ []
        else [])
    ++ (if ltb (count has_employer people) 2
        then record {
          kind = RelationKind.employer_overlap;
          reason = "fewer than two identities in this tree list an employer";
        }
          ∷ []
        else [])

pub record RelationReport : Type 0 where
  pub relations : List Relation
  pub rules_without_input : List RuleWithoutInput

module _ (readers : Readers) {F : Type 0} where
  -- Every card that a rule gives, before the merge.
  unfoldable pub candidates : List (ViewNode F) → List Relation
  candidates live =
      let people : List Identity = identities live in
      for_pairs surname_card people
      ++ (for_pairs employer_card people ++ mention_cards readers (in_tree live) live)

  unfoldable pub infer : List (ViewNode F) → Option RelationReport
  unfolding candidates corroborate
  infer nodes =
      let live : List (ViewNode F) = filter contributes nodes in
      elim (corroborate (candidates live)) [
        | none ↦ none
        | some cards ↦ some (record {
          relations = cards;
          rules_without_input = rules_without_input (identities live);
        })
      ]
