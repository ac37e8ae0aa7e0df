-- ===== src/Examples/Quotas.antt =====
-- One rate key with two calls a second, and its windows.
use mathlib.Core.List.{Memᴰ}
use ozint.Base.{
  ℕ, ◌+◌, ◌^◌, ◌≤◌, ◌<◌, String, ◌≡◌, refl, arith, [], ◌∷◌, All, get, insert, string_eq, pair_eq,
}
use ozint.Scheduler.{
  RateLimit, per_second, cap, window_kind, second, kind_eq, Scheduler, permit, wait_for, limits_of,
  plan_limits, commit, plan, finish, try_reserve_at, window_millis, persists, cached, effective,
}
use ozint.Scheduler.Buckets.{used_at}
use ozint.Scheduler.Admission.{usage, refusal_spends_nothing, admission_counts_one}
use ozint.Scheduler.Windows.{admitted, admitted-le-cap}
use ozint.Scheduler.Races.{race_admits_two}

abbrev two_a_second : RateLimit
two_a_second = per_second 2

-- A scheduler whose current second has counted this many calls of `nvd`.
abbrev with_used : ℕ → Scheduler
with_used n = record {
  limits = ("nvd", two_a_second ∷ []) ∷ [];
  windows = (("nvd", second), record { window_start_ms = 1000; used = n }) ∷ [];
  quota = [];
}

abbrev after : ℕ → Scheduler
after n = (try_reserve_at "nvd" 1500 (with_used n)).1

full : try_reserve_at "nvd" 1500 (with_used 2) ≡ (wait_for 500, after 2)
unfolding try_reserve_at plan_limits window_kind window_millis cap get insert persists effective
    cached
full = refl

free : try_reserve_at "nvd" 1500 (with_used 1) ≡ (permit, after 1)
unfolding try_reserve_at plan_limits window_kind window_millis cap get insert persists effective
    cached commit
free = refl

refusal_spends_nothing_example :
    ((after 2).quota ≡ [])
    × ((after 2).limits ≡ (with_used 2).limits)
    × ((t : String) (l : RateLimit) (later : ℕ)
        → usage (after 2) t l later ≡ usage (with_used 2) t l later)
refusal_spends_nothing_example = refusal_spends_nothing "nvd" 1500 (with_used 2) 500 (after 2) full

abbrev limits_small : All (λ l. cap l < 2 ^ 32) (two_a_second ∷ [])
limits_small = (unfold cap in omega arith, tt)

admission_counts_one_example :
    All
      (λ l.
        (usage (with_used 1) "nvd" l 1500 < cap l)
        × (usage (after 1) "nvd" l 1500 ≡ usage (with_used 1) "nvd" l 1500 + 1))
      (limits_of "nvd" (with_used 1))
unfolding get
admission_counts_one_example =
    admission_counts_one "nvd" 1500 (with_used 1) (after 1) (tt, tt) limits_small free

admitted-le-cap_example :
    admitted "nvd" (("nvd", 1200) ∷ ("nvd", 1300) ∷ ("nvd", 1400) ∷ []) (with_used 1)
      + usage (with_used 1) "nvd" two_a_second 1500
    ≤ cap two_a_second
unfolding get cap window_millis window_kind effective used_at
admitted-le-cap_example =
    admitted-le-cap "nvd" two_a_second 1500 (("nvd", 1200) ∷ ("nvd", 1300) ∷ ("nvd", 1400) ∷ [])
      (with_used 1) (Memᴰ.head refl) (tt, tt) limits_small (λ e. refl, (λ e. refl, (λ e. refl, tt)))
      (omega arith)

race_admits_two_example :
    let (p, s₁) = plan "nvd" 1500 (with_used 1) in
    let (q, s₂) = plan "nvd" 1500 s₁ in
    let (a, s₃) = finish "nvd" p s₂ in
    let (b, s₄) = finish "nvd" q s₃ in
    (a ≡ permit)
    × (b ≡ permit)
    × All
        (λ l. usage s₄ "nvd" l 1500 ≡ usage (with_used 1) "nvd" l 1500 + 1)
        (limits_of "nvd" (with_used 1))
unfolding get used_at cap window_millis window_kind effective
race_admits_two_example =
    race_admits_two "nvd" 1500 (with_used 1) (tt, tt) limits_small (omega arith, tt)
