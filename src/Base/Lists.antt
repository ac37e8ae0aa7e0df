-- ===== src/Base/Lists.antt =====
-- Lists measured by native numbers, Boolean list tests, and predicates on the entries of a list.
use Prim.Native.Nat.{ℕ, zero, suc, ◌+◌}
use mathlib.Core.Path.{◌≡◌, refl, sym, subst}
use mathlib.Core.Bool.{Bool, false, ◌||◌}
use mathlib.Core.List.{List, [], ◌∷◌, ◌++◌, Memᴰ}
use mathlib.Core.Option.{Option, none, some}
use native.Mathlib.Omega.{arith}
use ozint.Base.Tests.{if◌then◌else◌, if-keeps}

module _ {ℓ} {A : Type ℓ} where
  abbrev pub length : List A → ℕ
  length [] = 0
  length (x ∷ xs) = suc (length xs)

  abbrev pub drop : ℕ → List A → List A
  drop zero xs = xs
  drop (suc n) [] = []
  drop (suc n) (x ∷ xs) = drop n xs

  abbrev pub take : ℕ → List A → List A
  take zero xs = []
  take (suc n) [] = []
  take (suc n) (x ∷ xs) = x ∷ take n xs

  -- Rust's `iter().any`, `iter().all` and `iter().filter`.
  abbrev pub any : (A → Bool) → List A → Bool
  any p [] = false
  any p (x ∷ xs) = p x || any p xs

  abbrev pub filter : (A → Bool) → List A → List A
  filter p [] = []
  filter p (x ∷ xs) = let rest = filter p xs in if p x then x ∷ rest else rest

  -- Rust's `iter().find`.
  abbrev pub find : (A → Bool) → List A → Option A
  find p [] = none
  find p (x ∷ xs) = if p x then some x else find p xs

  abbrev pub count : (A → Bool) → List A → ℕ
  count p [] = 0
  count p (x ∷ xs) = (if p x then 1 else 0) + count p xs

  abbrev pub All {κ} : (A → Type κ) → List A → Type κ
  All P [] = Unit
  All P (x ∷ xs) = P x × All P xs

  pub any-append : (p : A → Bool) (xs ys : List A) → any p (xs ++ ys) ≡ (any p xs || any p ys)
  any-append p [] ys = refl
  any-append p (x ∷ xs) ys = ground (arith, any-append p xs ys)

  pub count-append : (p : A → Bool) (xs ys : List A) → count p (xs ++ ys) ≡ count p xs + count p ys
  count-append p [] ys = omega arith
  count-append p (x ∷ xs) ys = omega (arith, count-append p xs ys)

  pub length-append : (xs ys : List A) → length (xs ++ ys) ≡ length xs + length ys
  length-append [] ys = omega arith
  length-append (x ∷ xs) ys = omega (arith, length-append xs ys)

  pub length-filter : (p : A → Bool) (xs : List A) → length (filter p xs) ≡ count p xs
  length-filter p [] = refl
  length-filter p (x ∷ xs) = ground (arith, length-filter p xs)

  pub All-append {κ} : (P : A → Type κ) (xs ys : List A) → All P xs → All P ys → All P (xs ++ ys)
  All-append P [] ys hx hy = hy
  All-append P (x ∷ xs) ys hx hy = (hx.0, All-append P xs ys hx.1 hy)

  pub All-zip {κ} :
      (P Q R S : A → Type κ) (xs : List A)
      → ((x : A) → P x → Q x → R x → S x)
      → All P xs
      → All Q xs
      → All R xs
      → All S xs
  All-zip P Q R S [] f p q r = tt
  All-zip P Q R S (x ∷ xs) f p q r = (f x p.0 q.0 r.0, All-zip P Q R S xs f p.1 q.1 r.1)

  pub All-Memᴰ {κ} : (P : A → Type κ) {a : A} {xs : List A} → Memᴰ a xs → All P xs → P a
  All-Memᴰ P (Memᴰ.head e) h = subst P (sym e) h.0
  All-Memᴰ P (Memᴰ.tail m) h = All-Memᴰ P m h.1

  pub All-map {κ μ} :
      (P : A → Type κ) (Q : A → Type μ)
      → ((x : A) → P x → Q x)
      → (xs : List A) → All P xs
      → All Q xs
  All-map P Q f [] h = tt
  All-map P Q f (x ∷ xs) h = (f x h.0, All-map P Q f xs h.1)

module _ {κ} {B : Type κ} where
  -- What an option holds has a property.
  abbrev pub AllSome {μ} : (B → Type μ) → Option B → Type μ
  AllSome P none = Unit
  AllSome P (some y) = P y

  AllSome-cons {μ} :
      (P : B → Type μ) (o : Option B) (ys : List B)
      → AllSome P o
      → All P ys
      → All P (elim o [ none ↦ ys | some y ↦ y ∷ ys ])
  AllSome-cons P none ys p h = h
  AllSome-cons P (some y) ys p h = (p, h)

-- Rust's `filter_map` and `flat_map`.
module _ {ℓ κ} {A : Type ℓ} {B : Type κ} where
  abbrev pub filter_map : (A → Option B) → List A → List B
  filter_map f [] = []
  filter_map f (x ∷ xs) =
      let rest = filter_map f xs in elim (f x) [ none ↦ rest | some y ↦ y ∷ rest ]

  abbrev pub flat_map : (A → List B) → List A → List B
  flat_map f [] = []
  flat_map f (x ∷ xs) = f x ++ flat_map f xs

  -- Each entry gives an option, and `Q` of the entry gives `P` of what it holds.
  pub All-filter_map_from {μ ν} :
      (P : B → Type μ) (Q : A → Type ν) (f : A → Option B) (xs : List A)
      → ((x : A) → Q x → AllSome P (f x))
      → All Q xs
      → All P (filter_map f xs)
  All-filter_map_from P Q f [] h q = tt
  All-filter_map_from P Q f (x ∷ xs) h q =
      AllSome-cons P (f x) (filter_map f xs) (h x q.0) (All-filter_map_from P Q f xs h q.1)

  -- Each entry gives a list, and `Q` of the entry gives `P` of what it lists.
  pub All-flat_map_from {μ ν} :
      (P : B → Type μ) (Q : A → Type ν) (f : A → List B) (xs : List A)
      → ((x : A) → Q x → All P (f x))
      → All Q xs
      → All P (flat_map f xs)
  All-flat_map_from P Q f [] h q = tt
  All-flat_map_from P Q f (x ∷ xs) h q =
      All-append P (f x) (flat_map f xs) (h x q.0) (All-flat_map_from P Q f xs h q.1)

  pub All-filter_map {μ} :
      (P : B → Type μ) (f : A → Option B) (xs : List A)
      → ((x : A) → AllSome P (f x))
      → All P (filter_map f xs)
  All-filter_map P f [] h = tt
  All-filter_map P f (x ∷ xs) h =
      AllSome-cons P (f x) (filter_map f xs) (h x) (All-filter_map P f xs h)

  pub All-flat_map {μ} :
      (P : B → Type μ) (f : A → List B) (xs : List A)
      → ((x : A) → All P (f x))
      → All P (flat_map f xs)
  All-flat_map P f [] h = tt
  All-flat_map P f (x ∷ xs) h = All-append P (f x) (flat_map f xs) (h x) (All-flat_map P f xs h)

module _ {ℓ} {A : Type ℓ} where
  pub All-filter {κ} :
      (P : A → Type κ) (p : A → Bool) (xs : List A) → All P xs → All P (filter p xs)
  All-filter P p [] h = tt
  All-filter P p (x ∷ xs) h =
      if-keeps (All P) (p x) (h.0, All-filter P p xs h.1) (All-filter P p xs h.1)

  pub All-of {κ} : (P : A → Type κ) (xs : List A) → ((x : A) → P x) → All P xs
  All-of P [] h = tt
  All-of P (x ∷ xs) h = (h x, All-of P xs h)

  -- A test that holds of no entry fails at each.
  pub All-none : (p : A → Bool) (xs : List A) → any p xs ≡ false → All (λ x. p x ≡ false) xs
  All-none p [] h = tt
  All-none p (x ∷ xs) h = (ground arith, All-none p xs (ground arith))
