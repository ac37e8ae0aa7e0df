-- ===== src/Relations/Subjects.antt =====
-- The panel's cards as a list (`corroborate` of crates/ozint/src/relations.rs): one for each subject,
-- in the order of the panel.
use ozint.Base.{
  ℕ, String, true, false, ◌≡◌, refl, sym, ap, ◌∙◌, arith, Bool-cases, inl, inr, ◌==◌, string_eq,
  none, some, if◌then◌else◌, List, [], ◌∷◌, any, All, count, filter, Map, get, is_some, ==_iff,
  subst,
}
use ozint.Base.Groups.{
  group_by, group_by-AllGroups, group_by-nonempty, group_by-IsAscending, is_some-group_by,
  AllGroups, is_nonempty, has_key, All-has_key, IsAscending, get-AllAbove, AllAbove,
}
use ozint.Base.Order.{str_ltb_asym, str_ltb_chains}
use ozint.Base.Sorting.{sort_by, count-sort_by, sort_by-IsSorted, IsSorted}
use ozint.Relations.{Relation}
use ozint.Relations.Merge.{merge_group, merge_first, merge_all, corroborate, subject_key, before}

merge_all-count :
    (cs : List Relation) (k : String) (m : Map String (List Relation))
    → IsAscending m
    → AllGroups (λ j group. is_nonempty group ≡ true) m
    → AllGroups (λ j group. group ≡ filter (has_key subject_key j) cs) m
    → (cards : List Relation) × ((merge_all m ≡ some cards)
        × (count (has_key subject_key k) cards ≡ (if is_some (get k m) then 1 else 0)))
unfolding merge_all merge_group merge_first get
merge_all-count cs k [] up h q = ([], (refl, refl))
merge_all-count cs k ((j, []) ∷ m) up h q = absurd (cc h.0)
merge_all-count cs k ((j, r ∷ group) ∷ m) up h q =
    let (cards, (e, counted)) = merge_all-count cs k m up.1 h.1 q.1 in
    let key : subject_key r ≡ j =
      (==_iff (subject_key r) j).0
        (subst (All (λ (c : Relation). has_key subject_key j c ≡ true)) (sym q.0)
          (All-has_key subject_key j cs)).0 in
    let same : (subject_key r == k) ≡ (j == k) = ap (λ i. i == k) key in
    (
      merge_first r group ∷ cards,
      (
        rw (merge_all, e) refl,
        elim (Bool-cases (j == k)) [
          | inl f ↦
              let absent : get k m ≡ none =
                get-AllAbove k m (subst (λ i. AllAbove i m) ((==_iff j k).0 f) up.0) in
              let none_yet : if◌then◌else◌ {A = ℕ} (is_some (get k m)) 1 0 ≡ 0 = rw absent refl in
              rw (same, f) (omega (arith, counted, none_yet))
          | inr f ↦ rw (same, f) (omega (arith, counted))
        ],
      ),
    )

-- The panel is always built, and it has one card for each subject that a candidate has, up to case
-- and spaces, and none for any other.
pub corroborate-count :
    (candidates : List Relation) (k : String)
    → (cards : List Relation) × ((corroborate candidates ≡ some cards)
        × (count (has_key subject_key k) cards
            ≡ (if any (has_key subject_key k) candidates then 1 else 0)))
unfolding corroborate
corroborate-count candidates k =
    let (cards, (e, counted)) =
      merge_all-count candidates k (group_by subject_key candidates)
        (group_by-IsAscending subject_key candidates) (group_by-nonempty subject_key candidates)
        (group_by-AllGroups subject_key candidates) in
    (
      sort_by before cards,
      (
        rw (corroborate, e) refl,
        count-sort_by before (has_key subject_key k) cards
            ∙ counted
            ∙ ap (λ b. if b then 1 else 0) (is_some-group_by subject_key k candidates),
      ),
    )

before_asymmetric : (x y : Relation) → before x y ≡ true → before y x ≡ false
unfolding before
before_asymmetric x y h = ground (arith, str_ltb_asym x.subject y.subject)

before_chains : (x y z : Relation) → before y x ≡ false → before z y ≡ false → before z x ≡ false
unfolding before
before_chains x y z h k = ground (arith, str_ltb_chains x.subject y.subject z.subject)

-- The panel is always built, and no card of it stands behind one that it precedes, by rank and then
-- by subject.
pub corroborate-IsSorted :
    (candidates : List Relation)
    → (cards : List Relation) × ((corroborate candidates ≡ some cards) × IsSorted before cards)
unfolding corroborate
corroborate-IsSorted candidates =
    let (cards, (e, counted)) =
      merge_all-count candidates "" (group_by subject_key candidates)
        (group_by-IsAscending subject_key candidates) (group_by-nonempty subject_key candidates)
        (group_by-AllGroups subject_key candidates) in
    (
      sort_by before cards,
      (rw (corroborate, e) refl, sort_by-IsSorted before before_asymmetric before_chains cards),
    )
