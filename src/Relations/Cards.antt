-- ===== src/Relations/Cards.antt =====
-- The merge of the candidates into one card a subject (`corroborate` of
-- crates/ozint/src/relations.rs): the kinds of a group, and what a merged card keeps.
use ozint.Base.{
  String, Bool, true, false, ◌≡◌, refl, subst, ◌∙◌, ◌||◌, not, arith, Bool-cases, inl, inr, ◌==◌,
  string_eq, some, List, [], ◌∷◌, any, All, filter, Map, ltb, length, ==_iff,
}
use ozint.Base.Groups.{
  group_by, group_by-AllGroups, group_by-nonempty, AllGroups, is_nonempty, has_key,
}
use ozint.Base.Sorting.{sort_by, All-sort_by}
use ozint.Relations.{Relation, RelationKind, kind_eq}
use ozint.Relations.Merge.{
  kinds_of, has_kind, merge_group, merge_first, merge_all, corroborate, subject_key, before,
}

abbrev pub other_kind : RelationKind → RelationKind → Bool
other_kind k j = not (j == k)

-- A card of the group is of another kind than `k`.
abbrev pub has_other : RelationKind → List Relation → Bool
has_other k group = any (λ (r : Relation). other_kind k r.kind) group

abbrev IsUnique : List RelationKind → Type 0
IsUnique [] = Unit
IsUnique (k ∷ kinds) = (has_kind k kinds ≡ false) × IsUnique kinds

any-other_has :
    (j k : RelationKind) (kinds : List RelationKind)
    → has_kind j kinds ≡ true
    → (any (other_kind k) kinds || other_kind k j) ≡ any (other_kind k) kinds
unfolding has_kind
any-other_has j k [] h = absurd (cc h)
any-other_has j k (i ∷ kinds) h =
    ground (arith, any-other_has j k kinds, ==_iff i j, ==_iff j k, ==_iff i k)

any-kinds_of :
    (k : RelationKind) (group : List Relation)
    → any (other_kind k) (kinds_of group) ≡ has_other k group
unfolding kinds_of
any-kinds_of k [] = refl
any-kinds_of k (r ∷ group) = elim (Bool-cases (has_kind r.kind (kinds_of group))) [
  | inl e ↦ rw e (ground (arith, any-kinds_of k group, any-other_has r.kind k (kinds_of group) e))
  | inr e ↦ rw e (ground (arith, any-kinds_of k group))
]

kinds_of-IsUnique : (group : List Relation) → IsUnique (kinds_of group)
unfolding kinds_of
kinds_of-IsUnique [] = tt
kinds_of-IsUnique (r ∷ group) = elim (Bool-cases (has_kind r.kind (kinds_of group))) [
  | inl e ↦ rw e (kinds_of-IsUnique group)
  | inr e ↦ rw e (e, kinds_of-IsUnique group)
]

first-has_kind :
    (r : Relation) (group : List Relation) → has_kind r.kind (kinds_of (r ∷ group)) ≡ true
unfolding kinds_of has_kind
first-has_kind r group = elim (Bool-cases (has_kind r.kind (kinds_of group))) [
  | inl e ↦ rw e e
  | inr e ↦ rw e (ground (arith, ==_iff r.kind r.kind))
]

IsUnique-two :
    (k : RelationKind) (kinds : List RelationKind)
    → IsUnique kinds
    → has_kind k kinds ≡ true
    → ltb 1 (length kinds) ≡ any (other_kind k) kinds
unfolding has_kind
IsUnique-two k [] u h = absurd (cc h)
IsUnique-two k (i ∷ []) u h = ground (arith, h)
IsUnique-two k (i ∷ j ∷ kinds) u h = ground (arith, u.0, ==_iff j i, ==_iff i k, ==_iff j k)

-- A group has more than one kind exactly when a card of it is of another kind than the first.
pub length-kinds_of :
    (r : Relation) (group : List Relation)
    → ltb 1 (length (kinds_of (r ∷ group))) ≡ has_other r.kind (r ∷ group)
length-kinds_of r group =
    IsUnique-two r.kind (kinds_of (r ∷ group)) (kinds_of-IsUnique (r ∷ group))
      (first-has_kind r group)
    ∙ any-kinds_of r.kind (r ∷ group)

-- The merge of groups that are not empty gives a card for each, with what its group gives.
merge_all-All {κ μ} :
    (Q : String → List Relation → Type κ) (P : Relation → Type μ) (m : Map String (List Relation))
    → ((k : String) (group : List Relation) (card : Relation)
        → Q k group
        → merge_group group ≡ some card
        → P card)
    → AllGroups (λ k group. is_nonempty group ≡ true) m
    → AllGroups Q m
    → (cards : List Relation) × ((merge_all m ≡ some cards) × All P cards)
unfolding merge_all merge_group
merge_all-All Q P [] f h q = ([], (refl, tt))
merge_all-All Q P ((k, []) ∷ m) f h q = absurd (cc h.0)
merge_all-All Q P ((k, r ∷ group) ∷ m) f h q =
    let (cards, (e, all)) = merge_all-All Q P m f h.1 q.1 in
    (
      merge_first r group ∷ cards,
      (rw (merge_all, e) refl, (f k (r ∷ group) (merge_first r group) q.0 refl, all)),
    )

-- Every card of the panel has what the candidates with its subject give. There always is a panel.
pub corroborate-All {μ} :
    (P : Relation → Type μ) (candidates : List Relation)
    → ((k : String) (card : Relation)
        → merge_group (filter (has_key subject_key k) candidates) ≡ some card
        → P card)
    → (cards : List Relation) × ((corroborate candidates ≡ some cards) × All P cards)
unfolding corroborate
corroborate-All P candidates f =
    let (cards, (e, all)) =
      merge_all-All (λ k group. group ≡ filter (has_key subject_key k) candidates) P
        (group_by subject_key candidates)
        (λ k group card q m. f k card (subst (λ g. merge_group g ≡ some card) q m))
        (group_by-nonempty subject_key candidates) (group_by-AllGroups subject_key candidates) in
    (sort_by before cards, (rw (corroborate, e) refl, All-sort_by before P cards all))
