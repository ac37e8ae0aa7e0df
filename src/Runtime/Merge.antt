-- ===== src/Runtime/Merge.antt =====
-- The merges that enrich a parent node (`merge_patch` and `merge_sections` of
-- crates/ozint/src/runtime.rs).
use ozint.Base.{
  String, ◌≡◌, refl, Option, none, some, List, [], ◌∷◌, if◌then◌else◌, ◌==◌, string_eq, get, insert,
  get-insert, HasUniqueKeys, insert-HasUniqueKeys, Bool-cases, inl, inr, arith,
}
use text.Mathlib.TextEquality.{eq_iff}
use ozint.Types.{JsonObject, OzSection}
use ozint.Runtime.{merge_patch, put_section, merge_sections}

abbrev or_else {ℓ} : {A : Type ℓ} → Option A → Option A → Option A
or_else none b = b
or_else (some a) b = some a

get-merge_patch :
    (k : String) (p a : JsonObject)
    → get k (merge_patch p a) ≡ or_else (get k (merge_patch [] a)) (get k p)
unfolding merge_patch get
get-merge_patch k p [] = refl
get-merge_patch k p ((j, v) ∷ a) = ground (
  arith,
  get-merge_patch k (insert j v p) a,
  get-merge_patch k (insert j v []) a,
  get-insert j k v p,
  get-insert j k v [],
)

merge_patch-HasUniqueKeys : (p a : JsonObject) → HasUniqueKeys p → HasUniqueKeys (merge_patch p a)
unfolding merge_patch
merge_patch-HasUniqueKeys p [] h = h
merge_patch-HasUniqueKeys p ((j, v) ∷ a) h =
    merge_patch-HasUniqueKeys (insert j v p) a (insert-HasUniqueKeys j v p h)

get-merge_patch_nil :
    (k : String) (a : JsonObject) → HasUniqueKeys a → get k (merge_patch [] a) ≡ get k a
unfolding merge_patch get
get-merge_patch_nil k [] h = refl
get-merge_patch_nil k ((j, v) ∷ a) h = ground (
  arith,
  get-merge_patch k (insert j v []) a,
  get-insert j k v [],
  get-merge_patch_nil k a h.1,
  h.0,
  eq_iff j k,
)

-- Folding two patches into a payload one at a time leaves what folding them into each other first
-- would, under every key, the first patch being an object: its keys are unique.
pub merge_patch-merge_patch :
    (k : String) (p a b : JsonObject)
    → HasUniqueKeys a
    → get k (merge_patch (merge_patch p a) b) ≡ get k (merge_patch p (merge_patch a b))
merge_patch-merge_patch k p a b h = ground (
  arith,
  get-merge_patch k (merge_patch p a) b,
  get-merge_patch k p a,
  get-merge_patch k p (merge_patch a b),
  get-merge_patch_nil k (merge_patch a b) (merge_patch-HasUniqueKeys a b h),
  get-merge_patch k a b,
  get-merge_patch_nil k a h,
)

-- The section that a panel shows under an id.
unfoldable pub section_of : String → List OzSection → Option OzSection
section_of id [] = none
section_of id (s ∷ ss) = let rest = section_of id ss in if s.id == id then some s else rest

section_of-put_section :
    (id : String) (new : OzSection) (ss : List OzSection)
    → section_of id (put_section new ss) ≡ (if new.id == id then some new else section_of id ss)
unfolding section_of put_section
section_of-put_section id new [] = refl
section_of-put_section id new (s ∷ ss) =
    ground (
      arith,
      section_of-put_section id new ss,
      eq_iff s.id new.id,
      eq_iff s.id id,
      eq_iff new.id id,
    )

section_of-merge_sections :
    (id : String) (ss incoming : List OzSection)
    → section_of id (merge_sections ss incoming)
      ≡ or_else (section_of id (merge_sections [] incoming)) (section_of id ss)
unfolding merge_sections section_of
section_of-merge_sections id ss [] = refl
section_of-merge_sections id ss (s ∷ incoming) = ground (
  arith,
  section_of-merge_sections id (put_section s ss) incoming,
  section_of-merge_sections id (put_section s []) incoming,
  section_of-put_section id s ss,
  section_of-put_section id s [],
)

-- Firing again with the same tools' answers changes no section: merging twice shows, under every
-- id, what merging once shows.
pub merge_sections-merge_sections :
    (id : String) (ss incoming : List OzSection)
    → section_of id (merge_sections (merge_sections ss incoming) incoming)
      ≡ section_of id (merge_sections ss incoming)
merge_sections-merge_sections id ss incoming = ground (
  arith,
  section_of-merge_sections id (merge_sections ss incoming) incoming,
  section_of-merge_sections id ss incoming,
)

-- The ids of a node's sections stay distinct.
abbrev pub HasUniqueIds : List OzSection → Type 0
HasUniqueIds [] = Unit
HasUniqueIds (s ∷ ss) = (section_of s.id ss ≡ none) × HasUniqueIds ss

put_section-HasUniqueIds :
    (new : OzSection) (ss : List OzSection) → HasUniqueIds ss → HasUniqueIds (put_section new ss)
unfolding section_of put_section
put_section-HasUniqueIds new [] h = (refl, tt)
put_section-HasUniqueIds new (s ∷ ss) h = elim (Bool-cases (s.id == new.id)) [
  | inl e ↦ rw e (rw (← (eq_iff s.id new.id).0 e) h.0, h.1)
  | inr e ↦ rw e (
    ground (arith, section_of-put_section s.id new ss, eq_iff s.id new.id, eq_iff new.id s.id, h.0),
    put_section-HasUniqueIds new ss h.1,
  )
]

-- Merging sections into a list with one section for each id leaves one section for each id.
pub merge_sections-HasUniqueIds :
    (ss incoming : List OzSection) → HasUniqueIds ss → HasUniqueIds (merge_sections ss incoming)
unfolding merge_sections
merge_sections-HasUniqueIds ss [] h = h
merge_sections-HasUniqueIds ss (s ∷ incoming) h =
    merge_sections-HasUniqueIds (put_section s ss) incoming (put_section-HasUniqueIds s ss h)
