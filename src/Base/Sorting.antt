-- ===== src/Base/Sorting.antt =====
-- Rust's stable `sort_by`, by insertion: `before` says that its first argument goes strictly first.
use Prim.Native.Nat.{◌+◌}
use mathlib.Core.Path.{◌≡◌, refl}
use mathlib.Core.Logic.{inl, inr}
use mathlib.Core.Bool.{Bool, true, false}
use mathlib.Core.List.{List, [], ◌∷◌}
use native.Mathlib.Omega.{arith}
use ozint.Base.Tests.{if◌then◌else◌, Bool-cases}
use ozint.Base.Lists.{All, count}

module _ {ℓ} {A : Type ℓ} (before : A → A → Bool) where
  -- An entry goes behind those that it does not precede, its equals among them.
  unfoldable pub insert_sorted : A → List A → List A
  insert_sorted x [] = x ∷ []
  insert_sorted x (y ∷ ys) =
      let rest = insert_sorted x ys in if before x y then x ∷ y ∷ ys else y ∷ rest

  unfoldable pub insert_all : List A → List A → List A
  insert_all sorted [] = sorted
  insert_all sorted (x ∷ xs) = insert_all (insert_sorted x sorted) xs

  unfoldable pub sort_by : List A → List A
  unfolding insert_all
  sort_by xs = insert_all [] xs

  abbrev pub IsSorted : List A → Type 0
  IsSorted [] = Unit
  IsSorted (x ∷ xs) = All (λ y. before y x ≡ false) xs × IsSorted xs

  All-insert_sorted {κ} :
      (P : A → Type κ) (x : A) (ys : List A) → P x → All P ys → All P (insert_sorted x ys)
  unfolding insert_sorted
  All-insert_sorted P x [] p h = (p, tt)
  All-insert_sorted P x (y ∷ ys) p h = elim (Bool-cases (before x y)) [
    | inl e ↦ rw e (p, h)
    | inr e ↦ rw e (h.0, All-insert_sorted P x ys p h.1)
  ]

  All-insert_all {κ} :
      (P : A → Type κ) (sorted xs : List A) → All P sorted → All P xs → All P (insert_all sorted xs)
  unfolding insert_all
  All-insert_all P sorted [] hs h = hs
  All-insert_all P sorted (x ∷ xs) hs h =
      All-insert_all P (insert_sorted x sorted) xs (All-insert_sorted P x sorted h.0 hs) h.1

  pub All-sort_by {κ} : (P : A → Type κ) (xs : List A) → All P xs → All P (sort_by xs)
  unfolding sort_by
  All-sort_by P xs h = All-insert_all P [] xs tt h

  count-insert_sorted :
      (p : A → Bool) (x : A) (ys : List A)
      → count p (insert_sorted x ys) ≡ (if p x then 1 else 0) + count p ys
  unfolding insert_sorted
  count-insert_sorted p x [] = refl
  count-insert_sorted p x (y ∷ ys) = elim (Bool-cases (before x y)) [
    | inl e ↦ rw e refl
    | inr e ↦ rw e (omega (arith, count-insert_sorted p x ys))
  ]

  count-insert_all :
      (p : A → Bool) (sorted xs : List A)
      → count p (insert_all sorted xs) ≡ count p sorted + count p xs
  unfolding insert_all
  count-insert_all p sorted [] = omega arith
  count-insert_all p sorted (x ∷ xs) =
      omega (arith, count-insert_all p (insert_sorted x sorted) xs, count-insert_sorted p x sorted)

  -- Sorting keeps every entry as often as it was there.
  pub count-sort_by : (p : A → Bool) (xs : List A) → count p (sort_by xs) ≡ count p xs
  unfolding sort_by
  count-sort_by p xs = omega (arith, count-insert_all p [] xs)

  -- The test is a strict weak order: it is not both ways round, and what does not precede chains.
  module _ (asymmetric : (x y : A) → before x y ≡ true → before y x ≡ false)
      (chains : (x y z : A) → before y x ≡ false → before z y ≡ false → before z x ≡ false) where
    All_chains :
        (x y : A) (ys : List A)
        → before y x ≡ false
        → All (λ z. before z y ≡ false) ys
        → All (λ z. before z x ≡ false) ys
    All_chains x y [] e h = tt
    All_chains x y (z ∷ ys) e h = (chains x y z e h.0, All_chains x y ys e h.1)

    insert_sorted-IsSorted : (x : A) (ys : List A) → IsSorted ys → IsSorted (insert_sorted x ys)
    unfolding insert_sorted
    insert_sorted-IsSorted x [] h = (tt, tt)
    insert_sorted-IsSorted x (y ∷ ys) h = elim (Bool-cases (before x y)) [
      | inl e ↦ rw e ((asymmetric x y e, All_chains x y ys (asymmetric x y e) h.0), h)
      | inr e ↦
          rw e (
            All-insert_sorted (λ z. before z y ≡ false) x ys e h.0,
            insert_sorted-IsSorted x ys h.1,
          )
    ]

    insert_all-IsSorted : (sorted xs : List A) → IsSorted sorted → IsSorted (insert_all sorted xs)
    unfolding insert_all
    insert_all-IsSorted sorted [] h = h
    insert_all-IsSorted sorted (x ∷ xs) h =
        insert_all-IsSorted (insert_sorted x sorted) xs (insert_sorted-IsSorted x sorted h)

    pub sort_by-IsSorted : (xs : List A) → IsSorted (sort_by xs)
    unfolding sort_by
    sort_by-IsSorted xs = insert_all-IsSorted [] xs tt
