-- ===== src/SubjectFile/Values.antt =====
-- Agreement and conflict inside one item (the inner fold of `items_for` in
-- crates/ozint/src/subject_file.rs).
use ozint.Base.{
  String, Bool, true, false, ◌≡◌, refl, sym, ap, ◌∙◌, ◌&&◌, ◌||◌, arith, Bool-cases, inl, inr, ◌==◌,
  string_eq, List, [], ◌∷◌, any, any-append, All, ==_iff, eq_self,
}
use ozint.SubjectFile.{FieldSource, FieldValue, Contribution, same_source, bool_beq, agree_key}
use ozint.SubjectFile.Fold.{add_source, agrees, add_value, fold_values}

abbrev pub has_source : FieldSource → List FieldSource → Bool
has_source source sources = any (λ (s : FieldSource). same_source s source) sources

-- A value that agrees with the contribution's has its source.
abbrev pub holds : Contribution → FieldValue → Bool
holds c v = agrees v.value c.value && has_source c.source v.sources

abbrev pub reports : Contribution → List FieldValue → Bool
reports c values = any (holds c) values

abbrev pub agrees_with : String → FieldValue → Bool
agrees_with w v = agrees v.value w

-- No two of the values agree.
abbrev pub IsDistinct : List FieldValue → Type 0
IsDistinct [] = Unit
IsDistinct (v ∷ vs) = (any (agrees_with v.value) vs ≡ false) × IsDistinct vs

same_source_self : (s : FieldSource) → same_source s s ≡ true
unfolding same_source bool_beq
same_source_self s = ground (arith, eq_self s.node_id, eq_self s.tool_id)

agrees_self : (v : String) → agrees v v ≡ true
unfolding agrees
agrees_self v = eq_self (agree_key v)

agrees_trans : (u v w : String) → agrees u v ≡ true → agrees w v ≡ agrees w u
unfolding agrees
agrees_trans u v w h = ap (λ k. agree_key w == k) (sym ((==_iff (agree_key u) (agree_key v)).0 h))

agrees_sym : (u v : String) → agrees u v ≡ agrees v u
unfolding agrees
agrees_sym u v =
    ground (arith, ==_iff (agree_key u) (agree_key v), ==_iff (agree_key v) (agree_key u))

has_source-add_source :
    (s t : FieldSource) (sources : List FieldSource)
    → has_source s sources ≡ true
    → has_source s (add_source t sources) ≡ true
unfolding add_source
has_source-add_source s t sources h =
    ground (arith, any-append (λ (r : FieldSource). same_source r s) sources (t ∷ []), h)

has_source-add_source_self :
    (s : FieldSource) (sources : List FieldSource) → has_source s (add_source s sources) ≡ true
unfolding add_source
has_source-add_source_self s sources =
    ground (
      arith,
      any-append (λ (r : FieldSource). same_source r s) sources (s ∷ []),
      same_source_self s,
    )

reports-add_value_self :
    (c : Contribution) (values : List FieldValue) → reports c (add_value c values) ≡ true
unfolding add_value
reports-add_value_self c [] = ground (arith, agrees_self c.value, same_source_self c.source)
reports-add_value_self c (v ∷ vs) = elim (Bool-cases (agrees v.value c.value)) [
  | inl e ↦ rw e (ground (arith, e, has_source-add_source_self c.source v.sources))
  | inr e ↦ rw e (ground (arith, reports-add_value_self c vs))
]

reports-add_value :
    (c d : Contribution) (values : List FieldValue)
    → reports c values ≡ true
    → reports c (add_value d values) ≡ true
unfolding add_value
reports-add_value c d [] h = absurd (cc h)
reports-add_value c d (v ∷ vs) h = elim (Bool-cases (agrees v.value d.value)) [
  | inl e ↦ rw e (ground (arith, h, has_source-add_source c.source d.source v.sources))
  | inr e ↦ rw e (ground (arith, h, reports-add_value c d vs))
]

reports-fold_values_kept :
    (c : Contribution) (values : List FieldValue) (cs : List Contribution)
    → reports c values ≡ true
    → reports c (fold_values values cs) ≡ true
unfolding fold_values
reports-fold_values_kept c values [] h = h
reports-fold_values_kept c values (d ∷ cs) h =
    reports-fold_values_kept c (add_value d values) cs (reports-add_value c d values h)

-- Nothing is lost: each contribution is reported with its source.
pub reports-fold_values :
    (values : List FieldValue) (cs : List Contribution)
    → All (λ (c : Contribution). reports c (fold_values values cs) ≡ true) cs
unfolding fold_values
reports-fold_values values [] = tt
reports-fold_values values (c ∷ cs) = (
  reports-fold_values_kept c (add_value c values) cs (reports-add_value_self c values),
  reports-fold_values (add_value c values) cs,
)

any-add_value :
    (w : String) (c : Contribution) (values : List FieldValue)
    → any (agrees_with w) (add_value c values) ≡ (any (agrees_with w) values || agrees c.value w)
unfolding add_value
any-add_value w c [] = ground arith
any-add_value w c (v ∷ vs) = elim (Bool-cases (agrees v.value c.value)) [
  | inl e ↦
      rw e (
        ground
          (arith, agrees_trans v.value c.value w e, agrees_sym v.value w, agrees_sym c.value w))
  | inr e ↦ rw e (ground (arith, any-add_value w c vs))
]

add_value-IsDistinct :
    (c : Contribution) (values : List FieldValue)
    → IsDistinct values
    → IsDistinct (add_value c values)
unfolding add_value
add_value-IsDistinct c [] h = (refl, tt)
add_value-IsDistinct c (v ∷ vs) h = elim (Bool-cases (agrees v.value c.value)) [
  | inl e ↦ rw e h
  | inr e ↦ rw e (
    any-add_value v.value c vs ∙ ground (arith, h.0, e, agrees_sym v.value c.value),
    add_value-IsDistinct c vs h.1,
  )
]

-- The values of an item never agree with one another, so two of them are a conflict.
pub fold_values-IsDistinct :
    (values : List FieldValue) (cs : List Contribution)
    → IsDistinct values
    → IsDistinct (fold_values values cs)
unfolding fold_values
fold_values-IsDistinct values [] h = h
fold_values-IsDistinct values (c ∷ cs) h =
    fold_values-IsDistinct (add_value c values) cs (add_value-IsDistinct c values h)
