-- ===== src/SubjectFile/Rail.antt =====
-- The whole subject file (`build` of crates/ozint/src/subject_file.rs).
use ozint.Base.{
  ◌≤◌, String, Bool, true, false, ◌≡◌, refl, sym, ap, subst, ◌∙◌, not, ◌&&◌, arith, ◌==◌, string_eq,
  List, [], ◌∷◌, ◌++◌, append_assoc, append-nil, map, unwrap_or, any, All, All-map, All-zip, All-of,
  All-none, count, filter, length, Map, get, insert, remove, get-insert, get-remove, eq_self,
  ==_iff,
}
use ozint.Types.{OzType}
use ozint.Types.Views.{ViewNode}
use ozint.SubjectFile.{
  SubjectField, SubjectField-discrete, FieldItem, FieldEntry, Contribution, field_eq, all_fields,
}
use ozint.SubjectFile.Fold.{
  by_field, entries, entry_for, items_for, build, all_contributions, is_filled,
}
use ozint.SubjectFile.Items.{All-kept, reported, items_for-reported}

abbrev pub has_field : SubjectField → Contribution → Bool
has_field field c = c.field == field

get-by_field :
    (field : SubjectField) (m : Map SubjectField (List Contribution)) (cs : List Contribution)
    → unwrap_or [] (get field (by_field m cs))
      ≡ unwrap_or [] (get field m) ++ filter (has_field field) cs
unfolding by_field
get-by_field field m [] = sym (append-nil _)
get-by_field field m (c ∷ cs) =
    let grown : List Contribution = unwrap_or [] (get c.field m) ++ (c ∷ []) in
    let ih = get-by_field field (insert c.field grown m) cs in
    let step = get-insert c.field field grown m in
    let assoc =
      append_assoc (unwrap_or [] (get c.field m)) (c ∷ []) (filter (has_field field) cs) in
    ground (arith, ih, step, assoc, ==_iff c.field field)

-- No field stands twice in a list.
abbrev IsUnique : List SubjectField → Type 0
IsUnique [] = Unit
IsUnique (f ∷ fs) = All (λ (g : SubjectField). (f == g) ≡ false) fs × IsUnique fs

-- An entry of the contribution's field reports it.
abbrev pub in_file : Contribution → List FieldEntry → Bool
in_file c fields =
    any (λ (entry : FieldEntry). (entry.field == c.field) && reported c entry.items) fields

count-le-length : (fields : List FieldEntry) → count is_filled fields ≤ length fields
count-le-length [] = omega arith
count-le-length (f ∷ fs) = ground (arith, count-le-length fs)

-- What holds at each field of the contributions to it holds of every contribution.
All-by_field :
    (Q : Contribution → Type 0) (cs : List Contribution)
    → ((f : SubjectField) → All (λ (c : Contribution). (has_field f c ≡ true) → Q c) cs)
    → All Q cs
All-by_field Q [] h = tt
All-by_field Q (c ∷ cs) h = ((h c.field).0 (eq_self c.field), All-by_field Q cs (λ f. (h f).1))

all_fields-all : (f : SubjectField) → any (λ (g : SubjectField). g == f) all_fields ≡ true
unfolding SubjectField-discrete
all_fields-all f = ground arith

any-at :
    (P : SubjectField → Bool) (f : SubjectField) (fs : List SubjectField)
    → any (λ (g : SubjectField). g == f) fs ≡ true
    → P f ≡ true
    → any (λ (g : SubjectField). (g == f) && P g) fs ≡ true
any-at P f [] h p = absurd (cc h)
any-at P f (g ∷ fs) h p = ground (arith, any-at P f fs, ==_iff g f, p, h)

is_unique : List SubjectField → Bool
is_unique [] = true
is_unique (f ∷ fs) = not (any (λ (g : SubjectField). f == g) fs) && is_unique fs

is_unique-IsUnique : (fs : List SubjectField) → is_unique fs ≡ true → IsUnique fs
unfolding is_unique
is_unique-IsUnique [] h = tt
is_unique-IsUnique (f ∷ fs) h = (
  All-none (λ (g : SubjectField). f == g) fs (ground (arith, h)),
  is_unique-IsUnique fs (ground (arith, h)),
)

all_fields-IsUnique : IsUnique all_fields
unfolding is_unique SubjectField-discrete
all_fields-IsUnique = is_unique-IsUnique all_fields refl

module _ (dedup_key : OzType → String → String) where
  -- The entry of each field is made of what the map holds for it.
  entries-map :
      (fields : List SubjectField) (m : Map SubjectField (List Contribution))
      (of_field : SubjectField → List Contribution)
      → IsUnique fields
      → All (λ (f : SubjectField). unwrap_or [] (get f m) ≡ of_field f) fields
      → entries dedup_key fields m ≡ map (λ f. entry_for dedup_key f (of_field f)) fields
  unfolding entries
  entries-map [] m of_field u h = refl
  entries-map (f ∷ fields) m of_field u h =
      let others =
        All-zip (λ (g : SubjectField). (f == g) ≡ false)
          (λ (g : SubjectField). unwrap_or [] (get g m) ≡ of_field g)
          (λ (g : SubjectField). unwrap_or [] (get g m) ≡ of_field g)
          (λ (g : SubjectField). unwrap_or [] (get g (remove f m)) ≡ of_field g) fields
          (λ g e held held'.
            let kept : get g (remove f m) ≡ get g m = get-remove f g m ∙ rw e refl in
            ap (unwrap_or []) kept ∙ held)
          u.0 h.1 h.1 in
      cc (h.0, entries-map fields (remove f m) of_field u.1 others)

  module _ {F : Type 0} where
    -- The rail has an entry for each of the twelve fields, in their order, and an entry is made of
    -- exactly the contributions to its field, in the order of the nodes.
    pub build-fields :
        (nodes : List (ViewNode F))
        → (build dedup_key nodes).fields
          ≡ map
              (λ f. entry_for dedup_key f (filter (has_field f) (all_contributions nodes)))
              all_fields
    unfolding build get
    build-fields nodes =
        let cs : List Contribution = all_contributions nodes in
        entries-map all_fields (by_field [] cs) (λ f. filter (has_field f) cs) all_fields-IsUnique
          (All-of (λ f. unwrap_or [] (get f (by_field [] cs)) ≡ filter (has_field f) cs) all_fields
            (λ f. get-by_field f [] cs))

    -- Every contribution of a node that is not rejected is in the subject file: an item of its field has
    -- a value that agrees with it, up to case and spaces, and lists its source.
    pub build-reports :
        (nodes : List (ViewNode F))
        → All
            (λ (c : Contribution). in_file c (build dedup_key nodes).fields ≡ true)
            (all_contributions nodes)
    unfolding entry_for
    build-reports nodes =
        let cs : List Contribution = all_contributions nodes in
        let items : SubjectField → List FieldItem =
          λ f. items_for dedup_key f (filter (has_field f) cs) in
        All-by_field (λ (c : Contribution). in_file c (build dedup_key nodes).fields ≡ true) cs
          (λ f.
            All-map (λ (c : Contribution). (has_field f c ≡ true) → reported c (items f) ≡ true)
              (λ (c : Contribution).
                (has_field f c ≡ true) → in_file c (build dedup_key nodes).fields ≡ true)
              (λ c h e.
                let here : reported c (items c.field) ≡ true =
                  subst (λ g. reported c (items g) ≡ true) (sym ((==_iff c.field f).0 e)) (h e) in
                subst (λ fields. in_file c fields ≡ true) (sym (build-fields nodes))
                  (any-at (λ g. reported c (items g)) c.field all_fields (all_fields-all c.field)
                    here))
              cs
              (All-kept (λ (c : Contribution). reported c (items f) ≡ true) (has_field f) cs
                (items_for-reported dedup_key f (filter (has_field f) cs))))

    -- The completeness count is at most the thirteen slots, of which twelve are fields.
    pub build-filled :
        (nodes : List (ViewNode F))
        → ((build dedup_key nodes).filled ≤ (build dedup_key nodes).total)
          × (length (build dedup_key nodes).fields ≡ 12)
    unfolding build
    build-filled nodes =
        let twelve : length (build dedup_key nodes).fields ≡ 12 = ap length (build-fields nodes) in
        (ground (arith, twelve, count-le-length (build dedup_key nodes).fields), twelve)
