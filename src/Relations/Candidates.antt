-- ===== src/Relations/Candidates.antt =====
-- What holds of every card before the merge (the three rules of `infer` in
-- crates/ozint/src/relations.rs).
use ozint.Base.{
  String, Bool, true, false, ◌≡◌, refl, ◌&&◌, ◌||◌, not, arith, ◌==◌, string_eq, Option, none, some,
  List, [], ◌∷◌, any, All, All-append, All-filter_map, All-flat_map, All-filter_map_from,
  All-flat_map_from, All-map, filter, filter_map, flat_map, AllSome, if-keeps, if-cases, eq_self,
  concat,
}
use ozint.Base.Text.{is_empty, trim}
use ozint.Types.{OzRow}
use ozint.Types.Views.{ViewNode, rows_of}
use ozint.Relations.{
  Relation, RelationKind, RelationKind-discrete, RelationTier, RelationEvidence, kind_eq,
  is_gated_tier, tier_for, one_of, bio_labels, name_labels, surname_of, norm, label_matches,
}
use ozint.Relations.Rules.{
  Readers, Identity, identity_of, identities, pair_card, overlap_detail, surname_card, overlap_card,
  employer_card, for_pairs, in_tree, mention_key, mention_card, same_name, same_surname,
  row_mentions, mention_cards, mentions_in,
}
use ozint.Relations.Merge.{candidates}

abbrev pub is_high_tier : RelationTier → Bool
is_high_tier RelationTier.high = true
is_high_tier _ = false

tier_for-gated :
    (kind : RelationKind) (gated : Bool)
    → (kind == RelationKind.face_match) ≡ false
    → is_gated_tier (tier_for kind gated) ≡ gated
unfolding tier_for
tier_for-gated kind true h = refl
tier_for-gated kind false h = ground arith

tier_for-high : (kind : RelationKind) (gated : Bool) → is_high_tier (tier_for kind gated) ≡ false
unfolding tier_for
tier_for-high kind true = refl
tier_for-high kind false = ground arith

module _ (readers : Readers) {F : Type 0} where
  -- One of the nodes has this id.
  abbrev pub has_id : List (ViewNode F) → String → Bool
  has_id nodes id = any (λ (n : ViewNode F). n.id == id) nodes

  abbrev pub IsLiveEvidence : List (ViewNode F) → RelationEvidence → Type 0
  IsLiveEvidence live e = has_id live e.node_id ≡ true

  -- A card that a profile's text named is not a node of the tree.
  abbrev pub is_new_mention : List (ViewNode F) → Relation → Bool
  is_new_mention live r =
      not (r.kind == RelationKind.mentioned_in_bio)
      || not (one_of (in_tree live) (mention_key readers r.subject))

  abbrev pub IsCandidate : List (ViewNode F) → Relation → Type 0
  IsCandidate live r =
      (is_gated_tier r.tier ≡ r.gated)
      × (is_high_tier r.tier ≡ false)
      × All (IsLiveEvidence live) r.evidence
      × (is_new_mention live r ≡ true)

  abbrev IsLiveIdentity : List (ViewNode F) → Identity → Type 0
  IsLiveIdentity live p = has_id live p.node_id ≡ true

  -- Every node of a list is in the list.
  abbrev IsLiveNode : List (ViewNode F) → ViewNode F → Type 0
  IsLiveNode live n = has_id live n.id ≡ true

  All-IsLiveNode-cons :
      (n : ViewNode F) (live ns : List (ViewNode F))
      → All (IsLiveNode live) ns
      → All (IsLiveNode (n ∷ live)) ns
  All-IsLiveNode-cons n live ns h =
      All-map (IsLiveNode live) (IsLiveNode (n ∷ live)) (λ m e. ground arith) ns h

  All-IsLiveNode : (live : List (ViewNode F)) → All (IsLiveNode live) live
  All-IsLiveNode [] = tt
  All-IsLiveNode (n ∷ live) =
      (ground (arith, eq_self n.id), All-IsLiveNode-cons n live live (All-IsLiveNode live))

  identity_of-live :
      (live : List (ViewNode F)) (node : ViewNode F) (row : OzRow)
      → IsLiveNode live node
      → AllSome (IsLiveIdentity live) (identity_of node row)
  unfolding identity_of
  identity_of-live live node row h =
      if-keeps (AllSome (IsLiveIdentity live))
        (not (label_matches name_labels row) || is_empty (trim row.value)) tt h

  identities-live : (live : List (ViewNode F)) → All (IsLiveIdentity live) (identities live)
  unfolding identities
  identities-live live =
      All-flat_map_from (IsLiveIdentity live) (IsLiveNode live)
        (λ (node : ViewNode F). filter_map (identity_of node) (rows_of node)) live
        (λ node h.
          All-filter_map (IsLiveIdentity live) (identity_of node) (rows_of node)
            (λ row. identity_of-live live node row h))
        (All-IsLiveNode live)

  pair_card-IsCandidate :
      (live : List (ViewNode F)) (kind : RelationKind) (a b : Identity) (d e f : String)
      → (kind == RelationKind.face_match) ≡ false
      → (kind == RelationKind.mentioned_in_bio) ≡ false
      → IsLiveIdentity live a
      → IsLiveIdentity live b
      → IsCandidate live (pair_card kind a b d e f)
  unfolding pair_card
  pair_card-IsCandidate live kind a b d e f hf hm la lb = (
    tier_for-gated kind (a.gated || b.gated) hf,
    tier_for-high kind (a.gated || b.gated),
    (la, (lb, tt)),
    rw hm refl,
  )

  surname_card-IsCandidate :
      (live : List (ViewNode F)) (a b : Identity)
      → IsLiveIdentity live a
      → IsLiveIdentity live b
      → AllSome (IsCandidate live) (surname_card a b)
  unfolding surname_card RelationKind-discrete
  surname_card-IsCandidate live a b la lb =
      if-keeps (AllSome (IsCandidate live))
        (not (same_name a b) && same_surname (surname_of a.name) (surname_of b.name))
        (pair_card-IsCandidate live RelationKind.shared_surname a b
          (concat (a.name ∷ " and " ∷ b.name ∷ [])) a.name b.name refl refl la lb)
        tt

  overlap_card-IsCandidate :
      (live : List (ViewNode F)) (a b : Identity) (ea eb : Option String)
      → IsLiveIdentity live a
      → IsLiveIdentity live b
      → AllSome (IsCandidate live) (overlap_card a b ea eb)
  unfolding overlap_card RelationKind-discrete
  overlap_card-IsCandidate live a b none eb la lb = tt
  overlap_card-IsCandidate live a b (some ea) none la lb = tt
  overlap_card-IsCandidate live a b (some ea) (some eb) la lb =
      if-keeps (AllSome (IsCandidate live)) (not (norm ea == norm eb) || same_name a b) tt (
        pair_card-IsCandidate live RelationKind.employer_overlap a b
          (overlap_detail a b ea a.role b.role) (concat (a.name ∷ " @ " ∷ ea ∷ []))
          (concat (b.name ∷ " @ " ∷ eb ∷ [])) refl refl la lb)

  for_pairs-IsCandidate :
      (live : List (ViewNode F)) (rule : Identity → Identity → Option Relation)
      (people : List Identity)
      → ((a b : Identity)
          → IsLiveIdentity live a
          → IsLiveIdentity live b
          → AllSome (IsCandidate live) (rule a b))
      → All (IsLiveIdentity live) people
      → All (IsCandidate live) (for_pairs rule people)
  unfolding for_pairs
  for_pairs-IsCandidate live rule [] f h = tt
  for_pairs-IsCandidate live rule (a ∷ people) f h =
      All-append (IsCandidate live) (filter_map (rule a) people) (for_pairs rule people)
        (All-filter_map_from (IsCandidate live) (IsLiveIdentity live) (rule a) people
          (λ b lb. f a b h.0 lb) h.1)
        (for_pairs-IsCandidate live rule people f h.1)

  mention_card-IsCandidate :
      (live : List (ViewNode F)) (node : ViewNode F) (row : OzRow) (mention : String)
      → IsLiveNode live node
      → AllSome (IsCandidate live) (mention_card readers (in_tree live) node row mention)
  unfolding mention_card RelationKind-discrete
  mention_card-IsCandidate live node row mention h =
      if-cases (AllSome (IsCandidate live)) (one_of (in_tree live) (mention_key readers mention))
        (λ e. tt)
        (λ e. (
          tier_for-gated RelationKind.mentioned_in_bio (node.gated || row.gated) refl,
          tier_for-high RelationKind.mentioned_in_bio (node.gated || row.gated),
          (h, tt),
          rw e refl,
        ))

  mention_cards-IsCandidate :
      (live : List (ViewNode F))
      → All (IsCandidate live) (mention_cards readers (in_tree live) live)
  unfolding mention_cards row_mentions
  mention_cards-IsCandidate live =
      All-flat_map_from (IsCandidate live) (IsLiveNode live)
        (λ (node : ViewNode F).
          flat_map (row_mentions readers (in_tree live) node)
            (filter (label_matches bio_labels) (rows_of node)))
        live
        (λ node h.
          All-flat_map (IsCandidate live) (row_mentions readers (in_tree live) node)
            (filter (label_matches bio_labels) (rows_of node))
            (λ row.
              All-filter_map (IsCandidate live) (mention_card readers (in_tree live) node row)
                (mentions_in readers row.value) (λ m. mention_card-IsCandidate live node row m h)))
        (All-IsLiveNode live)

  pub candidates-IsCandidate :
      (live : List (ViewNode F)) → All (IsCandidate live) (candidates readers live)
  unfolding candidates employer_card
  candidates-IsCandidate live =
      let people : List Identity = identities live in
      let known : All (IsLiveIdentity live) people = identities-live live in
      All-append (IsCandidate live) (for_pairs surname_card people) _
        (for_pairs-IsCandidate live surname_card people (surname_card-IsCandidate live) known)
        (All-append (IsCandidate live) (for_pairs employer_card people) _
          (for_pairs-IsCandidate live employer_card people
            (λ a b. overlap_card-IsCandidate live a b a.employer b.employer) known)
          (mention_cards-IsCandidate live))
