-- ===== src/Outcome/Settle.antt =====
-- `settle_kind` of outcome.rs against its documented truth table.
use ozint.Base.{
  ℕ, ◌≤◌, ◌<◌, Bool, true, false, ◌≡◌, ◌↔◌, refl, subst, List, [], ◌∷◌, ◌∙◌, arith, filter, count,
  length-filter, if◌then◌else◌, ltb, nat_eq,
}
use mathlib.Core.List.{Permᴰ}
use ozint.Outcome.{
  ToolReport, SettleKind, settled, empty, degraded, failed, aborted, settle_kind, was_attempted,
  is_error,
}
use ozint.Outcome.Classes.{attempted_split}

abbrev pub attempts : List ToolReport → ℕ
attempts = count (λ r. was_attempted r.outcome)

abbrev pub errors : List ToolReport → ℕ
errors = count (λ r. is_error r.outcome)

by_counts : ℕ → ℕ → ℕ → SettleKind
by_counts ran broke children =
    if nat_eq ran 0
    then failed
    else if nat_eq broke ran
    then failed
    else if ltb 0 broke
    then degraded
    else if ltb 0 children
    then settled
    else empty

-- The rows of the truth table in the source's comment, over plain counts of the reports.
pub data Verdict (rs : List ToolReport) (children : ℕ) : Bool → SettleKind → Type 0 where
  killed : Verdict rs children true aborted
  nothing_ran : attempts rs ≡ 0 → Verdict rs children false failed
  found : 0 < attempts rs → errors rs ≡ 0 → 0 < children → Verdict rs children false settled
  clean : 0 < attempts rs → errors rs ≡ 0 → children ≡ 0 → Verdict rs children false empty
  partly : 0 < errors rs → errors rs < attempts rs → Verdict rs children false degraded
  broken : 0 < attempts rs → errors rs ≡ attempts rs → Verdict rs children false failed

-- Every error was attempted, so it survives the filter.
errors-filter :
    (rs : List ToolReport)
    → count (λ r. is_error r.outcome) (filter (λ r. was_attempted r.outcome) rs) ≡ errors rs
errors-filter [] = refl
errors-filter (r ∷ rs) = ground (arith, attempted_split r.outcome, errors-filter rs)

errors-le-attempts : (rs : List ToolReport) → errors rs ≤ attempts rs
errors-le-attempts [] = omega arith
errors-le-attempts (r ∷ rs) = ground (arith, attempted_split r.outcome, errors-le-attempts rs)

-- The count of attempted reports and of their errors, as `settle_kind` computes them.
settle_kind-counts :
    (rs : List ToolReport) (n : ℕ) → settle_kind rs n false ≡ by_counts (attempts rs) (errors rs) n
unfolding settle_kind by_counts
settle_kind-counts rs n =
    rw (length-filter (λ (r : ToolReport). was_attempted r.outcome) rs, errors-filter rs)

settle_kind-Verdict :
    (rs : List ToolReport) (n : ℕ) (a : Bool) → Verdict rs n a (settle_kind rs n a)
unfolding settle_kind
settle_kind-Verdict rs n true = killed
settle_kind-Verdict rs n false = rw (settle_kind-counts rs n) (
    unfold by_counts in
    grind (arith, nothing_ran, found, clean, partly, broken, errors-le-attempts rs))

Verdict-settle_kind :
    {rs : List ToolReport} {n : ℕ} {a : Bool} {k : SettleKind}
    → Verdict rs n a k
    → settle_kind rs n a ≡ k
unfolding by_counts
Verdict-settle_kind killed = unfold settle_kind in refl
Verdict-settle_kind {rs} {n} (nothing_ran z) = rw (settle_kind-counts rs n) (ground arith)
Verdict-settle_kind {rs} {n} (found r e c) = rw (settle_kind-counts rs n) (ground arith)
Verdict-settle_kind {rs} {n} (clean r e c) = rw (settle_kind-counts rs n) (ground arith)
Verdict-settle_kind {rs} {n} (partly e r) = rw (settle_kind-counts rs n) (ground arith)
Verdict-settle_kind {rs} {n} (broken r e) = rw (settle_kind-counts rs n) (ground arith)

-- The verdict is the row of the documented truth table that fits, and only that row.
pub settle_kind-iff-Verdict :
    (rs : List ToolReport) (n : ℕ) (a : Bool) (k : SettleKind)
    → (settle_kind rs n a ≡ k) ↔ Verdict rs n a k
settle_kind-iff-Verdict rs n a k =
    (λ e. subst (Verdict rs n a) e (settle_kind-Verdict rs n a), Verdict-settle_kind)

count-perm :
    (p : ToolReport → Bool) {rs ss : List ToolReport} → Permᴰ rs ss → count p rs ≡ count p ss
count-perm p Permᴰ.nil = refl
count-perm p (Permᴰ.cons e h) = ground (arith, e, count-perm p h)
count-perm p (Permᴰ.swap e f) = ground (arith, e, f)
count-perm p (Permᴰ.trans g h) = count-perm p g ∙ count-perm p h

-- Two lists of reports that are permutations of each other have the same verdict.
pub settle_kind-perm :
    (rs ss : List ToolReport) (n : ℕ) (a : Bool)
    → Permᴰ rs ss
    → settle_kind rs n a ≡ settle_kind ss n a
settle_kind-perm rs ss n true h = unfold settle_kind in refl
settle_kind-perm rs ss n false h = rw (
  settle_kind-counts rs n,
  settle_kind-counts ss n,
  count-perm (λ r. was_attempted r.outcome) h,
  count-perm (λ r. is_error r.outcome) h,
)
