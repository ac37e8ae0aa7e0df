-- ===== src/Base/Groups.antt =====
-- `BTreeMap<String, Vec<_>>` filled by `entry(key).or_default().push(x)`: the entries in the order
-- of their keys, and the values of one key in the order of their arrival.
use Prim.Native.String.{String}
use Prim.Native.Nat.{◌≤◌}
use mathlib.Core.Path.{◌≡◌, refl, sym, ap, subst, ◌∙◌}
use mathlib.Core.Logic.{inl, inr}
use mathlib.Core.Bool.{Bool, true, false}
use mathlib.Core.List.{List, [], ◌∷◌, ◌++◌, append_assoc, append-nil}
use mathlib.Core.Option.{none, some}
use native.Mathlib.Omega.{arith}
use ozint.Base.Tests.{
  if◌then◌else◌, ◌==◌, string_eq, Bool-cases, unwrap_or, is_some, if-cases, ==_iff, eq_self,
}
use ozint.Base.Lists.{All, any, filter, length}
use ozint.Base.Assoc.{Map, get}
use ozint.Base.Order.{str_ltb, str_ltb_trans, str_ltb_total, str_ltb_irrefl}

above_of : (j k : String) → (j == k) ≡ false → str_ltb k j ≡ false → str_ltb j k ≡ true
above_of j k e f = elim (Bool-cases (str_ltb j k)) [
  | inl h ↦ h
  | inr h ↦ absurd (cc (e, (==_iff j k).1 (str_ltb_total j k h f)))
]

module _ {ℓ} {A : Type ℓ} where
  unfoldable pub push_entry : String → A → Map String (List A) → Map String (List A)
  push_entry k x [] = (k, x ∷ []) ∷ []
  push_entry k x ((j, xs) ∷ m) =
      let rest = push_entry k x m in
      if j == k
      then (j, xs ++ (x ∷ [])) ∷ m
      else if str_ltb k j
      then (k, x ∷ []) ∷ (j, xs) ∷ m
      else (j, xs) ∷ rest

  unfoldable pub push_all : (A → String) → Map String (List A) → List A → Map String (List A)
  push_all key m [] = m
  push_all key m (x ∷ xs) = push_all key (push_entry (key x) x m) xs

  abbrev pub AllAbove : String → Map String (List A) → Type 0
  AllAbove k [] = Unit
  AllAbove k ((j, xs) ∷ m) = (str_ltb k j ≡ true) × AllAbove k m

  abbrev pub IsAscending : Map String (List A) → Type 0
  IsAscending [] = Unit
  IsAscending ((j, xs) ∷ m) = AllAbove j m × IsAscending m

  -- A property of each entry: of its key and its values.
  abbrev pub AllGroups {κ} : (String → List A → Type κ) → Map String (List A) → Type κ
  AllGroups P [] = Unit
  AllGroups P ((j, xs) ∷ m) = P j xs × AllGroups P m

  AllAbove-trans :
      (j k : String) (m : Map String (List A)) → str_ltb j k ≡ true → AllAbove k m → AllAbove j m
  AllAbove-trans j k [] h above = tt
  AllAbove-trans j k ((i, xs) ∷ m) h above =
      (str_ltb_trans j k i h above.0, AllAbove-trans j k m h above.1)

  pub get-AllAbove : (k : String) (m : Map String (List A)) → AllAbove k m → get k m ≡ none
  unfolding get
  get-AllAbove k [] h = refl
  get-AllAbove k ((j, xs) ∷ m) h =
      ground (arith, get-AllAbove k m h.1, h.0, ==_iff j k, str_ltb_irrefl k, not_self j k h.0)
    where
      not_self : (j k : String) → str_ltb k j ≡ true → (j == k) ≡ false
      not_self j k above = elim (Bool-cases (j == k)) [
        | inl e ↦ absurd (cc (above, str_ltb_irrefl k, (==_iff j k).0 e))
        | inr e ↦ e
      ]

  push_entry-AllAbove :
      (i k : String) (x : A) (m : Map String (List A))
      → str_ltb i k ≡ true
      → AllAbove i m
      → AllAbove i (push_entry k x m)
  unfolding push_entry
  push_entry-AllAbove i k x [] h above = (h, tt)
  push_entry-AllAbove i k x ((j, xs) ∷ m) h above = elim (Bool-cases (j == k)) [
    | inl e ↦ rw e above
    | inr e ↦ elim (Bool-cases (str_ltb k j)) [
      | inl f ↦ rw (e, f) (h, above)
      | inr f ↦ rw (e, f) (above.0, push_entry-AllAbove i k x m h above.1)
    ]
  ]

  pub push_entry-IsAscending :
      (k : String) (x : A) (m : Map String (List A))
      → IsAscending m
      → IsAscending (push_entry k x m)
  unfolding push_entry
  push_entry-IsAscending k x [] h = (tt, tt)
  push_entry-IsAscending k x ((j, xs) ∷ m) h = elim (Bool-cases (j == k)) [
    | inl e ↦ rw e h
    | inr e ↦ elim (Bool-cases (str_ltb k j)) [
      | inl f ↦ rw (e, f) ((f, AllAbove-trans k j m f h.0), h)
      | inr f ↦
          rw (e, f)
            (push_entry-AllAbove j k x m (above_of j k e f) h.0, push_entry-IsAscending k x m h.1)
    ]
  ]

  -- What a key holds, nothing where it is absent.
  abbrev pub values_at : String → Map String (List A) → List A
  values_at k m = unwrap_or [] (get k m)

  values_at-push_entry :
      (i k : String) (x : A) (m : Map String (List A))
      → IsAscending m
      → values_at i (push_entry k x m)
        ≡ (if k == i then values_at i m ++ (x ∷ []) else values_at i m)
  unfolding get push_entry
  values_at-push_entry i k x [] h = ground arith
  values_at-push_entry i k x ((j, xs) ∷ m) h = elim (Bool-cases (j == k)) [
    | inl e ↦ rw e (ground (arith, ==_iff j k, ==_iff j i, ==_iff k i))
    | inr e ↦ elim (Bool-cases (str_ltb k j)) [
      | inl f ↦
          let absent : get k ((j, xs) ∷ m) ≡ none =
            get-AllAbove k ((j, xs) ∷ m) (f, AllAbove-trans k j m f h.0) in
          rw (e, f) (ground (arith, absent, ==_iff k i))
      | inr f ↦
          rw (e, f)
            (ground (arith, values_at-push_entry i k x m h.1, ==_iff j k, ==_iff j i, ==_iff k i))
    ]
  ]

  pub push_all-IsAscending :
      (key : A → String) (m : Map String (List A)) (xs : List A)
      → IsAscending m
      → IsAscending (push_all key m xs)
  unfolding push_all
  push_all-IsAscending key m [] h = h
  push_all-IsAscending key m (x ∷ xs) h =
      push_all-IsAscending key (push_entry (key x) x m) xs (push_entry-IsAscending (key x) x m h)

  abbrev pub has_key : (A → String) → String → A → Bool
  has_key key k x = key x == k

  -- A key holds what it held, then the pushed values with this key, in their order.
  pub values_at-push_all :
      (key : A → String) (k : String) (m : Map String (List A)) (xs : List A)
      → IsAscending m
      → values_at k (push_all key m xs) ≡ values_at k m ++ filter (has_key key k) xs
  unfolding push_all
  values_at-push_all key k m [] h = sym (append-nil _)
  values_at-push_all key k m (x ∷ xs) h =
      let ih =
        values_at-push_all key k (push_entry (key x) x m) xs
          (push_entry-IsAscending (key x) x m h) in
      let step = values_at-push_entry k (key x) x m h in
      let assoc = append_assoc (values_at k m) (x ∷ []) (filter (has_key key k) xs) in
      elim (Bool-cases (key x == k)) [
        | inl e ↦ rw e (ih ∙ ap (λ ys. ys ++ filter (has_key key k) xs) (step ∙ rw e refl) ∙ assoc)
        | inr e ↦ rw e (ih ∙ ap (λ ys. ys ++ filter (has_key key k) xs) (step ∙ rw e refl))
      ]

  unfoldable pub group_by : (A → String) → List A → Map String (List A)
  group_by key xs = push_all key [] xs

  -- In an ascending map every entry is what its key holds.
  AllGroups-values_at {κ} :
      (P : String → List A → Type κ) (m n : Map String (List A))
      → IsAscending n
      → ((k : String) → P k (values_at k m))
      → ((k : String) (xs : List A) → get k n ≡ some xs → get k m ≡ some xs)
      → AllGroups P n
  unfolding get
  AllGroups-values_at P m [] h f g = tt
  AllGroups-values_at P m ((j, xs) ∷ n) h f g = (
    subst (P j) (ap (unwrap_or []) (g j xs (rw (eq_self j) refl))) (f j),
    AllGroups-values_at P m n h.1 f (λ k ys e. g k ys (elim (Bool-cases (j == k)) [
      | inl q ↦ absurd (cc (e, get-AllAbove j n h.0, (==_iff j k).0 q))
      | inr q ↦ rw q e
    ])),
  )

  -- Each group is the values with its key, in their order.
  pub group_by-AllGroups :
      (key : A → String) (xs : List A)
      → AllGroups (λ k group. group ≡ filter (has_key key k) xs) (group_by key xs)
  unfolding group_by get
  group_by-AllGroups key xs =
      AllGroups-values_at (λ k group. group ≡ filter (has_key key k) xs) (push_all key [] xs)
        (push_all key [] xs) (push_all-IsAscending key [] xs tt)
        (λ k. values_at-push_all key k [] xs tt) (λ k ys e. e)

  abbrev pub is_nonempty : List A → Bool
  is_nonempty [] = false
  is_nonempty (x ∷ xs) = true

  is_nonempty-append : (xs : List A) (x : A) → is_nonempty (xs ++ (x ∷ [])) ≡ true
  is_nonempty-append [] x = refl
  is_nonempty-append (y ∷ xs) x = refl

  -- A property that a fresh group has and that a further value keeps holds of every group.
  push_entry-AllGroups {κ} :
      (P : String → List A → Type κ) (k : String) (x : A) (m : Map String (List A))
      → P k (x ∷ [])
      → ((ys : List A) → P k ys → P k (ys ++ (x ∷ [])))
      → AllGroups P m
      → AllGroups P (push_entry k x m)
  unfolding push_entry
  push_entry-AllGroups P k x [] new more h = (new, tt)
  push_entry-AllGroups P k x ((j, xs) ∷ m) new more h = elim (Bool-cases (j == k)) [
    | inl e ↦ rw e (
      subst (λ i. P i (xs ++ (x ∷ []))) (sym ((==_iff j k).0 e))
          (more xs (subst (λ i. P i xs) ((==_iff j k).0 e) h.0)),
      h.1,
    )
    | inr e ↦ elim (Bool-cases (str_ltb k j)) [
      | inl f ↦ rw (e, f) (new, h)
      | inr f ↦ rw (e, f) (h.0, push_entry-AllGroups P k x m new more h.1)
    ]
  ]

  push_all-nonempty :
      (key : A → String) (m : Map String (List A)) (xs : List A)
      → AllGroups (λ k group. is_nonempty group ≡ true) m
      → AllGroups (λ k group. is_nonempty group ≡ true) (push_all key m xs)
  unfolding push_all
  push_all-nonempty key m [] h = h
  push_all-nonempty key m (x ∷ xs) h = push_all-nonempty key (push_entry (key x) x m) xs (
      push_entry-AllGroups (λ k group. is_nonempty group ≡ true) (key x) x m refl
        (λ ys p. is_nonempty-append ys x) h)

  pub group_by-nonempty :
      (key : A → String) (xs : List A)
      → AllGroups (λ k group. is_nonempty group ≡ true) (group_by key xs)
  unfolding group_by
  group_by-nonempty key xs = push_all-nonempty key [] xs tt

  -- The entries that a filter by key keeps have the key.
  pub All-has_key :
      (key : A → String) (k : String) (xs : List A)
      → All (λ (x : A). has_key key k x ≡ true) (filter (has_key key k) xs)
  All-has_key key k [] = tt
  All-has_key key k (x ∷ xs) =
      if-cases (All (λ (y : A). has_key key k y ≡ true)) (has_key key k x)
        (λ e. (e, All-has_key key k xs)) (λ e. All-has_key key k xs)

  is_nonempty-filter : (p : A → Bool) (xs : List A) → is_nonempty (filter p xs) ≡ any p xs
  is_nonempty-filter p [] = refl
  is_nonempty-filter p (x ∷ xs) = ground (arith, is_nonempty-filter p xs)

  is_some-values_at :
      (k : String) (m : Map String (List A))
      → AllGroups (λ j group. is_nonempty group ≡ true) m
      → is_some (get k m) ≡ is_nonempty (values_at k m)
  unfolding get
  is_some-values_at k [] h = refl
  is_some-values_at k ((j, xs) ∷ m) h = elim (Bool-cases (j == k)) [
    | inl e ↦ rw e (sym h.0)
    | inr e ↦ rw e (is_some-values_at k m h.1)
  ]

  -- A key has a group exactly when a value has the key.
  pub is_some-group_by :
      (key : A → String) (k : String) (xs : List A)
      → is_some (get k (group_by key xs)) ≡ any (has_key key k) xs
  unfolding group_by get
  is_some-group_by key k xs =
      is_some-values_at k (push_all key [] xs) (push_all-nonempty key [] xs tt)
      ∙ ap is_nonempty (values_at-push_all key k [] xs tt)
      ∙ is_nonempty-filter (has_key key k) xs

  pub group_by-IsAscending : (key : A → String) (xs : List A) → IsAscending (group_by key xs)
  unfolding group_by
  group_by-IsAscending key xs = push_all-IsAscending key [] xs tt

  pub values_at-group_by :
      (key : A → String) (k : String) (xs : List A)
      → values_at k (group_by key xs) ≡ filter (has_key key k) xs
  unfolding group_by get
  values_at-group_by key k xs = values_at-push_all key k [] xs tt

  -- With the same key for all, there is one group.
  push_all-length :
      (key : A → String) (k : String) (group : List A) (xs : List A)
      → ((x : A) → key x ≡ k)
      → length (push_all key ((k, group) ∷ []) xs) ≡ 1
  unfolding push_all push_entry
  push_all-length key k group [] h = refl
  push_all-length key k group (x ∷ xs) h =
      rw ((==_iff k (key x)).1 (sym (h x))) (push_all-length key k (group ++ (x ∷ [])) xs h)

  pub group_by-length_le_one :
      (key : A → String) (k : String) (xs : List A)
      → ((x : A) → key x ≡ k)
      → length (group_by key xs) ≤ 1
  unfolding group_by push_all push_entry
  group_by-length_le_one key k [] h = omega arith
  group_by-length_le_one key k (x ∷ xs) h =
      omega (arith, push_all-length key (key x) (x ∷ []) xs (λ y. h y ∙ sym (h x)))
