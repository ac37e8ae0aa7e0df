-- ===== src/Scheduler/Windows.antt =====
-- How many calls `try_reserve_at` admits in one window, over any history of calls.
use mathlib.Core.List.{Memᴰ}
use ozint.Base.{
  ℕ, ◌+◌, ◌^◌, ◌≤◌, ◌<◌, String, false, ◌≡◌, refl, sym, subst, Option, none, some, List, [], ◌∷◌,
  map, arith, if◌then◌else◌, Map, get, insert, get-insert, string_eq, pair_eq, ◌==◌, ap, All,
  All-Memᴰ, Bool-cases, inl, inr, unwrap_or,
}
use text.Mathlib.TextEquality.{eq_iff}
use ozint.Scheduler.{
  RateLimit, cap, kind_eq, WindowState, Key, Scheduler, window_start, cached, effective,
  plan_limits, persist_quota, Reservation, permit, wait_for, limits_of, commit, try_reserve_at,
  persists,
}
use ozint.Scheduler.Buckets.{used_at, use_of, key_of, used_at-plan_limits}
use ozint.Scheduler.Admission.{
  HasDistinctKinds, usage, next, Misses, get-commit_windows_miss, try_reserve_at-cases,
  refusal_spends_nothing, admission_counts_one, plan_limits-admits_iff, plan_limits-planned,
}

-- The usage of a window is a matter of the window, not of the instant in it.
use_of-window :
    (l : RateLimit) (now later : ℕ) (held stored : Option WindowState)
    → window_start l now ≡ window_start l later
    → use_of l now held stored ≡ use_of l later held stored
unfolding use_of effective cached
use_of-window l now later (some s) stored e = ground arith
use_of-window l now later none none e = ground arith
use_of-window l now later none (some s) e = ground arith

used_at-window :
    (windows quota : Map Key WindowState) (r : String) (l : RateLimit) (now later : ℕ)
    → window_start l now ≡ window_start l later
    → used_at windows quota r l now ≡ used_at windows quota r l later
unfolding used_at
used_at-window windows quota r l now later e =
    use_of-window l now later (get (key_of r l) windows) (get (key_of r l) quota) e

get-persist_quota_miss :
    (k : Key) (ls : List RateLimit) (planned : List (Key × WindowState))
    (quota : Map Key WindowState)
    → Misses k planned
    → get k (persist_quota ls planned quota) ≡ get k quota
unfolding persist_quota
get-persist_quota_miss k [] planned quota h = refl
get-persist_quota_miss k (l ∷ ls) [] quota h = refl
get-persist_quota_miss k (l ∷ ls) ((j, b) ∷ planned) quota (n, h) = ground (
  arith,
  get-persist_quota_miss k ls planned (if persists l then insert j b quota else quota) h,
  get-insert j k b quota,
)

Misses-other :
    (t r : String) (now : ℕ) (quota windows : Map Key WindowState) (l : RateLimit)
    (ls : List RateLimit)
    → (t == r) ≡ false
    → Misses (key_of r l) (map (next t now quota windows) ls)
Misses-other t r now quota windows l [] n = tt
Misses-other t r now quota windows l (k ∷ ls) n =
    (ground arith, Misses-other t r now quota windows l ls n)

module _ (s : Scheduler) (t : String) (now : ℕ) where
  limits_kept :
      (s' : Scheduler) (out : Reservation)
      → try_reserve_at t now s ≡ (out, s')
      → s'.limits ≡ s.limits
  unfolding try_reserve_at commit
  limits_kept s' out e = elim (try_reserve_at-cases t now s s' out e) [
    | inl (_, _, same) ↦ rw same
    | inr (_, _, same) ↦ rw same
  ]

  -- A call for one key leaves the usage of every other key.
  pub other_key_kept :
      (s' : Scheduler) (out : Reservation) (r : String) (l : RateLimit) (later : ℕ)
      → (t == r) ≡ false
      → try_reserve_at t now s ≡ (out, s')
      → usage s' r l later ≡ usage s r l later
  unfolding commit used_at
  other_key_kept s' out r l later n e = elim (try_reserve_at-cases t now s s' out e) [
    | inl (_, free, same) ↦
        let p = plan_limits t now s.quota (limits_of t s) s.windows in
        let room = (plan_limits-admits_iff t now s.quota (limits_of t s) s.windows).0 free in
        let planned = plan_limits-planned t now s.quota (limits_of t s) s.windows room in
        let miss : Misses (key_of r l) p.planned =
          subst (Misses (key_of r l)) (sym planned)
            (Misses-other t r now s.quota s.windows l (limits_of t s) n) in
        rw same (
          rw
            (
              get-commit_windows_miss (key_of r l) p.planned p.windows miss,
              get-persist_quota_miss (key_of r l) (limits_of t s) p.planned s.quota miss,
            )
            (used_at-plan_limits t r l now later s.quota (limits_of t s) s.windows))
    | inr (_, _, same) ↦
        rw same (used_at-plan_limits t r l now later s.quota (limits_of t s) s.windows)
  ]

abbrev pub granted : Reservation → ℕ
granted permit = 1
granted (wait_for w) = 0

-- How many calls for a key a history of calls admits.
unfoldable pub admitted : String → List (String × ℕ) → Scheduler → ℕ
admitted r [] s = 0
admitted r ((t, now) ∷ calls) s =
    let (out, s') = try_reserve_at t now s in
    (if t == r then granted out else 0) + admitted r calls s'

-- The calls for this key fall into the window of this instant.
abbrev pub InWindow : String → RateLimit → ℕ → List (String × ℕ) → Type 0
InWindow r l now = All (λ c. c.0 ≡ r → window_start l c.1 ≡ window_start l now)

module _ (r : String) (l : RateLimit) (now : ℕ) where
  own_step :
      (s s' : Scheduler) (at : ℕ) (out : Reservation)
      → try_reserve_at r at s ≡ (out, s')
      → Memᴰ l (limits_of r s)
      → HasDistinctKinds (limits_of r s)
      → All (λ k. cap k < 2 ^ 32) (limits_of r s)
      → window_start l at ≡ window_start l now
      → (granted out + usage s r l now ≡ usage s' r l now)
        × (usage s r l now ≤ cap l → usage s' r l now ≤ cap l)
  own_step s s' at (wait_for w) e m d small at_now =
      let (_, _, same) = refusal_spends_nothing r at s w s' e in omega (arith, same r l now)
  own_step s s' at permit e m d small at_now =
      let (room, more) =
        All-Memᴰ (λ k. (usage s r k at < cap k) × (usage s' r k at ≡ usage s r k at + 1)) m
          (admission_counts_one r at s s' d small e) in
      omega (
        arith,
        room,
        more,
        used_at-window s.windows s.quota r l at now at_now,
        used_at-window s'.windows s'.quota r l at now at_now,
      )

  step_usage :
      (s s' : Scheduler) (t : String) (at : ℕ) (out : Reservation)
      → try_reserve_at t at s ≡ (out, s')
      → Memᴰ l (limits_of r s)
      → HasDistinctKinds (limits_of r s)
      → All (λ k. cap k < 2 ^ 32) (limits_of r s)
      → (t ≡ r → window_start l at ≡ window_start l now)
      → ((if t == r then granted out else 0) + usage s r l now ≡ usage s' r l now)
        × (usage s r l now ≤ cap l → usage s' r l now ≤ cap l)
  step_usage s s' t at out e m d small w = elim (Bool-cases (t == r)) [
    | inl mine ↦
        let t≡r = (eq_iff t r).0 mine in
        rw mine (own_step s s' at out (rw t≡r at e) m d small (w t≡r))
    | inr other ↦
        let same = other_key_kept s t at s' out r l now other e in
        rw other (omega (arith, same), λ u. omega (arith, same))
  ]

  -- Where the limits of a rate key have distinct kinds of windows and caps below 2^32, its calls
  -- all fall in one window of one of the limits, and no more than the cap is counted in it at
  -- first: the calls admitted and those counted before never pass the cap, whatever calls for
  -- other keys are made between and at whatever instants.
  pub admitted-le-cap :
      (calls : List (String × ℕ)) (s : Scheduler)
      → Memᴰ l (limits_of r s)
      → HasDistinctKinds (limits_of r s)
      → All (λ k. cap k < 2 ^ 32) (limits_of r s)
      → InWindow r l now calls
      → usage s r l now ≤ cap l
      → admitted r calls s + usage s r l now ≤ cap l
  unfolding admitted
  admitted-le-cap [] s m d small w u = omega arith
  admitted-le-cap ((t, at) ∷ calls) s m d small (w, ws) u =
      let out = (try_reserve_at t at s).0 in
      let s' = (try_reserve_at t at s).1 in
      let same : limits_of r s' ≡ limits_of r s =
        ap (λ (m : Map String (List RateLimit)). unwrap_or [] (get r m))
          (limits_kept s t at s' out refl) in
      let (step, bound) = step_usage s s' t at out refl m d small w in
      let rest = admitted-le-cap calls s' (rw same m) (rw same d) (rw same small) ws (bound u) in
      omega (arith, step, rest)
