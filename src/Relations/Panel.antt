-- ===== src/Relations/Panel.antt =====
-- What the panel shows (`infer` of crates/ozint/src/relations.rs): the tier of a card, and the nodes
-- that it rests on.
use ozint.Base.{
  String, Bool, true, false, ◌≡◌, refl, sym, ap, subst, ◌∙◌, ◌&&◌, not, arith, string_eq, some,
  List, [], ◌∷◌, any, All, All-filter, All-map, if-keeps, if-cases, unwrap_or, filter, ltb, length,
  ==_iff,
}
use ozint.Base.Groups.{has_key, All-has_key}
use ozint.Types.Views.{ViewNode, contributes}
use ozint.Relations.{Relation, RelationKind, RelationTier, is_gated_tier, kind_eq}
use ozint.Relations.Rules.{Readers, identities}
use ozint.Relations.Merge.{
  kinds_of, merge_group, merge_first, merged_tier, is_gated_card, subject_key, candidates, infer,
  RelationReport, rules_without_input,
}
use ozint.Relations.Candidates.{
  is_high_tier, IsCandidate, IsLiveEvidence, is_new_mention, candidates-IsCandidate,
}
use ozint.Relations.Cards.{has_other, length-kinds_of, corroborate-All}

-- The candidates with a card's subject.
abbrev pub same_subject : List Relation → Relation → List Relation
same_subject cs card = filter (has_key subject_key (subject_key card)) cs

-- A card is gated, in its flag and its tier, exactly when a candidate with its subject is; it is high
-- exactly when none is and two rules point at its subject.
abbrev pub HasMergedTier : List Relation → Relation → Type 0
HasMergedTier cs card =
    (card.gated ≡ any is_gated_card (same_subject cs card))
    × (is_gated_tier card.tier ≡ card.gated)
    × (is_high_tier card.tier ≡ (not card.gated && has_other card.kind (same_subject cs card)))

merged_tier-gated :
    (gated : Bool) (kinds : List RelationKind) (tier : RelationTier)
    → (gated ≡ false → is_gated_tier tier ≡ false)
    → is_gated_tier (merged_tier gated kinds tier) ≡ gated
unfolding merged_tier
merged_tier-gated true kinds tier h = refl
merged_tier-gated false kinds tier h =
    if-keeps (λ t. is_gated_tier t ≡ false) (ltb 1 (length kinds)) refl (h refl)

merged_tier-high :
    (gated : Bool) (kinds : List RelationKind) (tier : RelationTier)
    → is_high_tier tier ≡ false
    → is_high_tier (merged_tier gated kinds tier) ≡ (not gated && ltb 1 (length kinds))
unfolding merged_tier
merged_tier-high true kinds tier h = refl
merged_tier-high false kinds tier h =
    if-cases (λ t. is_high_tier t ≡ ltb 1 (length kinds)) (ltb 1 (length kinds)) (λ e. sym e)
      (λ e. h ∙ sym e)

module _ (readers : Readers) {F : Type 0} (live : List (ViewNode F)) where
  -- A card rests on nodes that contribute, and what a profile named is not yet a node.
  abbrev pub IsLiveCard : Relation → Type 0
  IsLiveCard card =
      All (IsLiveEvidence readers live) card.evidence × (is_new_mention readers live card ≡ true)

  abbrev IsPanelCard : List Relation → Relation → Type 0
  IsPanelCard cs card = HasMergedTier cs card × IsLiveCard card

  merge_first-IsPanelCard :
      (cs : List Relation) (r : Relation) (rest : List Relation)
      → filter (has_key subject_key (subject_key r)) cs ≡ r ∷ rest
      → IsCandidate readers live r
      → IsPanelCard cs (merge_first r rest)
  unfolding merge_first
  merge_first-IsPanelCard cs r rest e c =
      let ungated : any is_gated_card (r ∷ rest) ≡ false → is_gated_tier r.tier ≡ false =
        λ h. ground (arith, c.0, h) in
      let high = merged_tier-high (any is_gated_card (r ∷ rest)) (kinds_of (r ∷ rest)) r.tier c.1 in
      (
        (
          ap (any is_gated_card) (sym e),
          merged_tier-gated (any is_gated_card (r ∷ rest)) (kinds_of (r ∷ rest)) r.tier ungated,
          high
              ∙ ap (λ b. not (any is_gated_card (r ∷ rest)) && b)
                  (length-kinds_of r rest ∙ ap (has_other r.kind) (sym e)),
        ),
        (c.2, c.3),
      )

  merge_group-IsPanelCard :
      (cs : List Relation)
      → All (IsCandidate readers live) cs
      → (k : String) (card : Relation) → merge_group (filter (has_key subject_key k) cs) ≡ some card
      → IsPanelCard cs card
  unfolding merge_group
  merge_group-IsPanelCard cs all k card h =
      go (filter (has_key subject_key k) cs) refl (All-has_key subject_key k cs)
        (All-filter (IsCandidate readers live) (has_key subject_key k) cs all) h
    where
      go :
          (group : List Relation)
          → filter (has_key subject_key k) cs ≡ group
          → All (λ (r : Relation). has_key subject_key k r ≡ true) group
          → All (IsCandidate readers live) group
          → merge_group group ≡ some card
          → IsPanelCard cs card
      go [] e keys cards m = absurd (cc m)
      go (r ∷ rest) e keys cards m =
          let key : subject_key r ≡ k = (==_iff (subject_key r) k).0 keys.0 in
          subst (IsPanelCard cs) (ap (unwrap_or card) m) (
            merge_first-IsPanelCard cs r rest (ap (λ j. filter (has_key subject_key j) cs) key ∙ e)
              cards.0)

-- The panel is always built, and its cards have what a merged card has.
module _ (readers : Readers) {F : Type 0} where
  infer-All :
      (nodes : List (ViewNode F))
      → (report : RelationReport) × (infer readers nodes ≡ some report
          × All
              (IsPanelCard readers
                (filter contributes nodes)
                (candidates readers (filter contributes nodes)))
              report.relations)
  unfolding infer
  infer-All nodes =
      let live : List (ViewNode F) = filter contributes nodes in
      let cs : List Relation = candidates readers live in
      let (cards, (e, all)) =
        corroborate-All (IsPanelCard readers live cs) cs
          (merge_group-IsPanelCard readers live cs (candidates-IsCandidate readers live)) in
      (
        record { relations = cards; rules_without_input = rules_without_input (identities live) },
        (rw (infer, e) refl, all),
      )

  -- The panel is always built. A card of it is gated, in its flag and in its tier, exactly when a
  -- candidate with its subject is gated, and it is high exactly when none is and a candidate with its
  -- subject is of another kind than the card.
  pub infer-HasMergedTier :
      (nodes : List (ViewNode F))
      → (report : RelationReport) × (infer readers nodes ≡ some report
          × All (HasMergedTier (candidates readers (filter contributes nodes))) report.relations)
  infer-HasMergedTier nodes =
      let (report, (e, all)) = infer-All nodes in
      (
        report,
        (
          e,
          All-map
              (IsPanelCard readers (filter contributes nodes)
                (candidates readers (filter contributes nodes)))
              (HasMergedTier (candidates readers (filter contributes nodes))) (λ card h. h.0)
              report.relations all,
        ),
      )

  -- The panel is always built. All the evidence of a card of it cites a node that contributes, and the
  -- subject that a profile's text named is not the value of one.
  pub infer-IsLiveCard :
      (nodes : List (ViewNode F))
      → (report : RelationReport) × (infer readers nodes ≡ some report
          × All (IsLiveCard readers (filter contributes nodes)) report.relations)
  infer-IsLiveCard nodes =
      let (report, (e, all)) = infer-All nodes in
      (
        report,
        (
          e,
          All-map
              (IsPanelCard readers (filter contributes nodes)
                (candidates readers (filter contributes nodes)))
              (IsLiveCard readers (filter contributes nodes)) (λ card h. h.1) report.relations all,
        ),
      )
