-- ===== src/Relations/Coerce.antt =====
-- What a language model may change of a card (`coerce_relation` of crates/ozint/src/relations.rs).
use ozint.Base.{
  true, ◌≡◌, ◌≤◌, refl, ◌||◌, arith, Bool-cases, inl, inr, ◌==◌, string_eq, none, some,
}
use ozint.Relations.{
  Relation, RelationSuggestion, coerce_relation, suggested_tier, rank, is_gated_tier,
}

suggested_tier-rank :
    (base : Relation) (tier : _) → rank base.tier ≤ rank (suggested_tier base tier)
unfolding suggested_tier
suggested_tier-rank base none = omega arith
suggested_tier-rank base (some tier) = ground arith

suggested_tier-gated :
    (base : Relation) (tier : _)
    → (is_gated_tier base.tier || base.gated) ≡ true
    → suggested_tier base tier ≡ base.tier
unfolding suggested_tier
suggested_tier-gated base none h = refl
suggested_tier-gated base (some tier) h = ground arith

-- A suggestion leaves what a card asserts: its id, subject, type, kind, evidence and gated flag. The
-- tier never goes up.
pub coerce_relation-asserts :
    (base : Relation) (suggestion : RelationSuggestion)
    → let card : Relation = coerce_relation base suggestion in
      (card.id ≡ base.id)
      × (card.subject ≡ base.subject)
      × (card.subject_type ≡ base.subject_type)
      × (card.kind ≡ base.kind)
      × (card.evidence ≡ base.evidence)
      × (card.gated ≡ base.gated)
      × (rank base.tier ≤ rank card.tier)
unfolding coerce_relation
coerce_relation-asserts base suggestion = elim (Bool-cases (suggestion.id == base.id)) [
  | inl e ↦ simp e (refl, refl, refl, refl, refl, refl, suggested_tier-rank base suggestion.tier)
  | inr e ↦ simp e (refl, refl, refl, refl, refl, refl, omega arith)
]

-- No suggestion moves the tier of a card that is gated, by its tier or by its flag.
pub coerce_relation-gated :
    (base : Relation) (suggestion : RelationSuggestion)
    → (is_gated_tier base.tier || base.gated) ≡ true
    → (coerce_relation base suggestion).tier ≡ base.tier
unfolding coerce_relation
coerce_relation-gated base suggestion h = elim (Bool-cases (suggestion.id == base.id)) [
  | inl e ↦ simp e (suggested_tier-gated base suggestion.tier h)
  | inr e ↦ simp e refl
]
