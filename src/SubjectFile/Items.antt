-- ===== src/SubjectFile/Items.antt =====
-- The items of one field (`items_for` of crates/ozint/src/subject_file.rs).
use ozint.Base.{
  ◌≤◌, String, Bool, true, false, ◌≡◌, refl, sym, subst, ◌∙◌, arith, Bool-cases, inl, inr, ◌==◌,
  string_eq, List, [], ◌∷◌, is_some, any, All, All-map, All-zip, filter, length, Map, get, eq_self,
  if-cases,
}
use ozint.Base.Groups.{
  group_by, has_key, is_some-group_by, values_at-group_by, values_at, group_by-length_le_one,
}
use ozint.Types.{OzType}
use ozint.Types.Defaults.{is_nil}
use ozint.SubjectFile.{SubjectField, FieldItem, Contribution, is_list}
use ozint.SubjectFile.Fold.{items_of, item_of, items_for, item_key, contribution_key, fold_values}
use ozint.SubjectFile.Values.{reports, reports-fold_values, IsDistinct, fold_values-IsDistinct}

-- An item reports the contribution.
abbrev pub reported : Contribution → List FieldItem → Bool
reported c items = any (λ (item : FieldItem). reports c item.values) items

items_of-IsDistinct :
    (m : Map String (List Contribution))
    → All (λ (item : FieldItem). IsDistinct item.values) (items_of m)
unfolding items_of item_of
items_of-IsDistinct [] = tt
items_of-IsDistinct ((k, group) ∷ m) = (fold_values-IsDistinct [] group tt, items_of-IsDistinct m)

-- The group of a key is among the items.
items_of-reported :
    (c : Contribution) (k : String) (m : Map String (List Contribution))
    → is_some (get k m) ≡ true
    → reports c (fold_values [] (values_at k m)) ≡ true
    → reported c (items_of m) ≡ true
unfolding get items_of item_of
items_of-reported c k [] e h = absurd (cc e)
items_of-reported c k ((j, g) ∷ m) e h = elim (Bool-cases (j == k)) [
  | inl f ↦ let first : reports c (fold_values [] g) ≡ true = rw f at h in ground (arith, first)
  | inr f ↦
      let rest : reported c (items_of m) ≡ true = items_of-reported c k m (rw f at e) (rw f at h) in
      ground (arith, rest)
]

-- What a filter keeps has a property that all it keeps has.
pub All-kept :
    (P : Contribution → Type 0) (p : Contribution → Bool) (cs : List Contribution)
    → All P (filter p cs)
    → All (λ (c : Contribution). (p c ≡ true) → P c) cs
All-kept P p [] h = tt
All-kept P p (c ∷ cs) h = elim (Bool-cases (p c)) [
  | inl e ↦
      let kept : P c × All P (filter p cs) = rw e at h in ((λ t. kept.0), All-kept P p cs kept.1)
  | inr e ↦
      let kept : All P (filter p cs) = rw e at h in
      ((λ t. absurd (cc (e, t))), All-kept P p cs kept)
]

is_some-any :
    (p : Contribution → Bool) (cs : List Contribution)
    → All (λ (c : Contribution). (p c ≡ true) → any p cs ≡ true) cs
is_some-any p [] = tt
is_some-any p (c ∷ cs) = (
  (λ t. ground (arith, t)),
  All-map (λ (d : Contribution). (p d ≡ true) → any p cs ≡ true)
      (λ (d : Contribution). (p d ≡ true) → any p (c ∷ cs) ≡ true) (λ d f t. ground (arith, f t)) cs
      (is_some-any p cs),
)

module _ (dedup_key : OzType → String → String) (field : SubjectField) where
  -- A contribution is reported where its group is.
  group-reported :
      (cs : List Contribution) (k : String)
      → All
          (λ (c : Contribution).
            (has_key (contribution_key dedup_key field) k c ≡ true)
            → reported c (items_of (group_by (contribution_key dedup_key field) cs)) ≡ true)
          cs
  group-reported cs k =
      let key : Contribution → String = contribution_key dedup_key field in
      let p : Contribution → Bool = has_key key k in
      let Kept : Contribution → Type 0 =
        λ c. (p c ≡ true) → reports c (fold_values [] (filter p cs)) ≡ true in
      let Any : Contribution → Type 0 = λ c. (p c ≡ true) → any p cs ≡ true in
      All-zip Kept Any Any
        (λ (c : Contribution). (p c ≡ true) → reported c (items_of (group_by key cs)) ≡ true) cs
        (λ c f g g' t. items_of-reported c k (group_by key cs) (is_some-group_by key k cs ∙ g t) (
          subst (λ group. reports c (fold_values [] group) ≡ true)
            (sym (values_at-group_by key k cs)) (f t)))
        (All-kept (λ (c : Contribution). reports c (fold_values [] (filter p cs)) ≡ true) p cs
          (reports-fold_values [] (filter p cs)))
        (is_some-any p cs) (is_some-any p cs)

  -- What holds at each key of the entries with the key holds of every entry.
  All-by_key :
      (Q : Contribution → Type 0) (cs : List Contribution)
      → ((k : String)
          → All
              (λ (c : Contribution). (has_key (contribution_key dedup_key field) k c ≡ true) → Q c)
              cs)
      → All Q cs
  All-by_key Q [] f = tt
  All-by_key Q (c ∷ cs) f =
      let k : String = contribution_key dedup_key field c in
      ((f k).0 (eq_self k), All-by_key Q cs (λ j. (f j).1))

  -- Nothing is lost: each contribution to a field is reported, with its source, by an item of it.
  pub items_for-reported :
      (cs : List Contribution)
      → All (λ (c : Contribution). reported c (items_for dedup_key field cs) ≡ true) cs
  unfolding items_for
  items_for-reported [] = tt
  items_for-reported (c ∷ cs) =
      let items : List FieldItem =
        items_of (group_by (contribution_key dedup_key field) (c ∷ cs)) in
      All-by_key (λ (d : Contribution). reported d items ≡ true) (c ∷ cs) (group-reported (c ∷ cs))

  -- Two values of an item never agree, up to case and spaces: an item with two is a conflict.
  pub items_for-IsDistinct :
      (cs : List Contribution)
      → All (λ (item : FieldItem). IsDistinct item.values) (items_for dedup_key field cs)
  unfolding items_for
  items_for-IsDistinct cs =
      if-cases (All (λ (item : FieldItem). IsDistinct item.values)) (is_nil cs) (λ e. tt)
        (λ e. items_of-IsDistinct (group_by (contribution_key dedup_key field) cs))

  length-items_of : (m : Map String (List Contribution)) → length (items_of m) ≡ length m
  unfolding items_of
  length-items_of [] = refl
  length-items_of ((k, group) ∷ m) = omega (arith, length-items_of m)

  -- A field that is not a list has at most one item, whatever disagrees.
  pub items_for-length_le_one :
      (cs : List Contribution) → is_list field ≡ false → length (items_for dedup_key field cs) ≤ 1
  unfolding items_for item_key
  items_for-length_le_one [] h = omega arith
  items_for-length_le_one (c ∷ cs) h = omega (
    arith,
    length-items_of (group_by (contribution_key dedup_key field) (c ∷ cs)),
    group_by-length_le_one (contribution_key dedup_key field) "" (c ∷ cs) (λ d. rw h refl),
  )
