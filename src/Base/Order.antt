-- ===== src/Base/Order.antt =====
-- The order of Rust's `String`, by which a `BTreeMap` and a sort put texts.
use Prim.Native.Nat.{ℕ, Ordering, compare as compare_ℕ}
use Prim.Native.Char.{Char, code}
use Prim.Native.String.{String}
use Prim.Native.String.{compare, then as and_then}
use Prim.Native.String.compare as compare_lem
use mathlib.Core.Path.{◌≡◌, refl, sym, ap, ◌∙◌}
use mathlib.Core.Bool.{Bool, true, false}
use native.Mathlib.Omega.{arith}
use text.Mathlib.TextEquality.{codes_equal}
use text.Mathlib.TextPositions.{compare_refl}
use ozint.Base.Tests.{ltb, nat_eq, if◌then◌else◌, Bool-cases}
use mathlib.Core.Logic.{inl, inr}

abbrev pub is_lt : Ordering → Bool
is_lt Ordering.lt = true
is_lt Ordering.eq = false
is_lt Ordering.gt = false

abbrev pub str_ltb : String → String → Bool
str_ltb s t = is_lt (compare s t)

-- The order of two texts by their first characters.
by_first : ℕ → ℕ → Bool → Bool
by_first m n rest = if ltb m n then true else if nat_eq m n then rest else false

then-by_first :
    (m n : ℕ) (o : Ordering) → is_lt (and_then (compare_ℕ m n) o) ≡ by_first m n (is_lt o)
unfolding by_first
then-by_first m n o = ground arith

str_ltb-cons :
    (c d : Char) (s t : String)
    → str_ltb (String.◌∷◌ c s) (String.◌∷◌ d t) ≡ by_first (code c) (code d) (str_ltb s t)
str_ltb-cons c d s t =
    (λ i. is_lt (compare_lem.cons-cons c d s t i)) ∙ then-by_first (code c) (code d) (compare s t)

str_ltb-nil_nil : str_ltb "" "" ≡ false
str_ltb-nil_nil = refl

str_ltb-cons_nil : (c : Char) (s : String) → str_ltb (String.◌∷◌ c s) "" ≡ false
str_ltb-cons_nil c s = λ i. is_lt (compare_lem.cons-nil c s i)

str_ltb-nil_cons : (c : Char) (s : String) → str_ltb "" (String.◌∷◌ c s) ≡ true
str_ltb-nil_cons c s = λ i. is_lt (compare_lem.nil-cons c s i)

pub str_ltb_trans : (r s t : String) → str_ltb r s ≡ true → str_ltb s t ≡ true → str_ltb r t ≡ true
unfolding by_first
str_ltb_trans r String.[] String.[] h k = absurd (cc (str_ltb-nil_nil))
str_ltb_trans r (String.◌∷◌ d s) String.[] h k = absurd (cc (str_ltb-cons_nil d s))
str_ltb_trans String.[] s (String.◌∷◌ e t) h k = str_ltb-nil_cons e t
str_ltb_trans (String.◌∷◌ c r) String.[] (String.◌∷◌ e t) h k = absurd (cc (str_ltb-cons_nil c r))
str_ltb_trans (String.◌∷◌ c r) (String.◌∷◌ d s) (String.◌∷◌ e t) h k =
    let ih : str_ltb r s ≡ true → str_ltb s t ≡ true → str_ltb r t ≡ true = str_ltb_trans r s t in
    let h' : by_first (code c) (code d) (str_ltb r s) ≡ true = sym (str_ltb-cons c d r s) ∙ h in
    let k' : by_first (code d) (code e) (str_ltb s t) ≡ true = sym (str_ltb-cons d e s t) ∙ k in
    str_ltb-cons c e r t ∙ ground (arith, ih)

pub str_ltb_total : (s t : String) → str_ltb s t ≡ false → str_ltb t s ≡ false → s ≡ t
unfolding by_first
str_ltb_total String.[] String.[] h k = refl
str_ltb_total String.[] (String.◌∷◌ d t) h k = absurd (cc (str_ltb-nil_cons d t))
str_ltb_total (String.◌∷◌ c s) String.[] h k = absurd (cc (str_ltb-nil_cons c s))
str_ltb_total (String.◌∷◌ c s) (String.◌∷◌ d t) h k =
    let h' : by_first (code c) (code d) (str_ltb s t) ≡ false = sym (str_ltb-cons c d s t) ∙ h in
    let k' : by_first (code d) (code c) (str_ltb t s) ≡ false = sym (str_ltb-cons d c t s) ∙ k in
    let same_code : compare_ℕ (code c) (code d) ≡ Ordering.eq = ground arith in
    let hs : str_ltb s t ≡ false = ground arith in
    let ht : str_ltb t s ≡ false = ground arith in
    λ i. String.◌∷◌ (codes_equal c d same_code i) (str_ltb_total s t hs ht i)

pub str_ltb_irrefl : (s : String) → str_ltb s s ≡ false
str_ltb_irrefl s = ap is_lt (compare_refl s)

pub str_ltb_asym : (s t : String) → str_ltb s t ≡ true → str_ltb t s ≡ false
str_ltb_asym s t h = elim (Bool-cases (str_ltb t s)) [
  | inl e ↦ absurd (cc (str_ltb_trans s t s h e, str_ltb_irrefl s))
  | inr e ↦ e
]

-- What does not precede chains.
pub str_ltb_chains :
    (r s t : String) → str_ltb s r ≡ false → str_ltb t s ≡ false → str_ltb t r ≡ false
str_ltb_chains r s t h k = elim (Bool-cases (str_ltb t r)) [
  | inr e ↦ e
  | inl e ↦ elim (Bool-cases (str_ltb r s)) [
    | inl f ↦ absurd (cc (str_ltb_trans t r s e f, k))
    | inr f ↦ absurd (cc (e, k, str_ltb_total r s f h))
  ]
]
