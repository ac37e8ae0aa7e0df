-- ===== src/Scheduler/Admission.antt =====
-- One call of `try_reserve_at`: when it admits, and what it counts.
use ozint.Base.{
  ℕ, ◌+◌, ◌%◌, ◌^◌, ◌<◌, String, false, ◌≡◌, ◌≢◌, ◌↔◌, refl, none, some, List, [], ◌∷◌, map, arith,
  Map, get, insert, get-insert, get-insert_self, string_eq, pair_eq, ◌==◌, ==_iff, ap, ◌∙◌, All,
  All-zip, Option-cases, ◌⊎◌, inl, inr,
}
use ozint.Scheduler.{
  RateLimit, cap, window_kind, kind_eq, WindowState, Key, Scheduler, window_start, cached,
  effective, Plan, plan_limit, plan_limits, commit_windows, Reservation, permit, wait_for,
  limits_of, commit, try_reserve_at,
}
use ozint.Scheduler.Buckets.{use_of, used_at, key_of, used_at-load, used_at-plan_limits}

-- No two windows of the list are of one kind.
abbrev pub HasDistinctKinds : List RateLimit → Type 0
HasDistinctKinds [] = Unit
HasDistinctKinds (l ∷ ls) = All (λ k. window_kind l ≢ window_kind k) ls × HasDistinctKinds ls

module _ (r : String) (now : ℕ) (quota : Map Key WindowState) where
  -- The bucket that an admission writes.
  abbrev pub next : Map Key WindowState → RateLimit → Key × WindowState
  next windows l = (
    key_of r l,
    record {
      window_start_ms = window_start l now;
      used = (used_at windows quota r l now + 1) % 2 ^ 32;
    },
  )

  abbrev pub HasRoom : Map Key WindowState → List RateLimit → Type 0
  HasRoom windows = All (λ l. used_at windows quota r l now < cap l)

  next-load :
      (windows : Map Key WindowState) (l : RateLimit) (ls : List RateLimit)
      → map (next (insert (key_of r l) (cached windows quota r l now) windows)) ls
        ≡ map (next windows) ls
  next-load windows l [] = refl
  next-load windows l (k ∷ ls) =
      ground (arith, used_at-load windows quota r r l k now now, next-load windows l ls)

  HasRoom-load :
      (windows : Map Key WindowState) (l : RateLimit) (ls : List RateLimit)
      → HasRoom (insert (key_of r l) (cached windows quota r l now) windows) ls ↔ HasRoom windows ls
  HasRoom-load windows l [] = (λ h. h, λ h. h)
  HasRoom-load windows l (k ∷ ls) =
      ground (arith, used_at-load windows quota r r l k now now, HasRoom-load windows l ls)

  effective-start :
      (l : RateLimit) (s : WindowState) → (effective l now s).window_start_ms ≡ window_start l now
  unfolding effective
  effective-start l s = ground arith

  plan_limit_iff :
      (l : RateLimit) (windows : Map Key WindowState) (rest : Plan)
      → ((plan_limit (key_of r l) l now (effective l now (cached windows quota r l now)) rest).wait
          ≡ none)
        ↔ ((used_at windows quota r l now < cap l) × (rest.wait ≡ none))
  unfolding plan_limit used_at use_of cached
  plan_limit_iff l windows rest = ground arith

  plan_limit-planned :
      (l : RateLimit) (windows : Map Key WindowState) (rest : Plan)
      → used_at windows quota r l now < cap l
      → (plan_limit
          (key_of r l)
          l
          now
          (effective l now (cached windows quota r l now))
          rest).planned
        ≡ next windows l ∷ rest.planned
  unfolding plan_limit used_at use_of cached
  plan_limit-planned l windows rest h =
      ground (arith, effective-start l (cached windows quota r l now))

  -- A plan has no wait exactly when every window has room.
  pub plan_limits-admits_iff :
      (ls : List RateLimit) (windows : Map Key WindowState)
      → ((plan_limits r now quota ls windows).wait ≡ none) ↔ HasRoom windows ls
  unfolding plan_limits
  plan_limits-admits_iff [] windows = (λ _. tt, λ _. refl)
  plan_limits-admits_iff (l ∷ ls) windows =
      let windows' = insert (key_of r l) (cached windows quota r l now) windows in
      let rest = plan_limits r now quota ls windows' in
      let here = plan_limit_iff l windows rest in
      let ih = plan_limits-admits_iff ls windows' in
      let same = HasRoom-load windows l ls in
      (λ e. ((here.0 e).0, same.0 (ih.0 (here.0 e).1)), λ h. here.1 (h.0, ih.1 (same.1 h.1)))

  pub plan_limits-planned :
      (ls : List RateLimit) (windows : Map Key WindowState)
      → HasRoom windows ls
      → (plan_limits r now quota ls windows).planned ≡ map (next windows) ls
  unfolding plan_limits
  plan_limits-planned [] windows h = refl
  plan_limits-planned (l ∷ ls) windows h =
      let windows' = insert (key_of r l) (cached windows quota r l now) windows in
      plan_limit-planned l windows (plan_limits r now quota ls windows') h.0
      ∙ ap (λ ps. next windows l ∷ ps)
          (plan_limits-planned ls windows' ((HasRoom-load windows l ls).1 h.1)
            ∙ next-load windows l ls)

-- The keys of a list of buckets do not hold this one.
abbrev pub Misses : Key → List (Key × WindowState) → Type 0
Misses k = All (λ b. (b.0 == k) ≡ false)

pub get-commit_windows_miss :
    (k : Key) (planned : List (Key × WindowState)) (windows : Map Key WindowState)
    → Misses k planned
    → get k (commit_windows planned windows) ≡ get k windows
unfolding commit_windows
get-commit_windows_miss k [] windows h = refl
get-commit_windows_miss k ((j, b) ∷ planned) windows (n, h) =
    get-commit_windows_miss k planned (insert j b windows) h ∙ get-insert j k b windows ∙ (rw n)

module _ (r : String) (now : ℕ) (quota : Map Key WindowState) (at : Map Key WindowState) where
  next-Misses :
      (l : RateLimit) (ls : List RateLimit)
      → All (λ k. window_kind l ≢ window_kind k) ls
      → Misses (key_of r l) (map (next r now quota at) ls)
  next-Misses l [] h = tt
  next-Misses l (k ∷ ls) (n, h) =
      (ground (arith, ==_iff (window_kind k) (window_kind l)), next-Misses l ls h)

  -- What the second pass leaves in the cache for each window.
  pub get-commit_windows-next :
      (ls : List RateLimit) (windows : Map Key WindowState)
      → HasDistinctKinds ls
      → All
          (λ l.
            get (key_of r l) (commit_windows (map (next r now quota at) ls) windows)
            ≡ some (next r now quota at l).1)
          ls
  unfolding commit_windows
  get-commit_windows-next [] windows h = tt
  get-commit_windows-next (l ∷ ls) windows (n, h) =
      let b = (next r now quota at l).1 in
      (
        get-commit_windows_miss (key_of r l) (map (next r now quota at) ls)
              (insert (key_of r l) b windows) (next-Misses l ls n)
            ∙ get-insert_self (key_of r l) b windows,
        get-commit_windows-next ls (insert (key_of r l) b windows) h,
      )

-- A bucket of this window is read back as it stands.
used_at-held :
    (windows quota : Map Key WindowState) (r : String) (l : RateLimit) (now used : ℕ)
    → get (key_of r l) windows ≡ some (record { window_start_ms = window_start l now; used = used })
    → used_at windows quota r l now ≡ used
unfolding used_at effective
used_at-held windows quota r l now used e = ground (arith, e)

pub used_at-committed :
    (windows quota : Map Key WindowState) (r : String) (l : RateLimit) (now used : ℕ)
    → cap l < 2 ^ 32
    → used < cap l
    → get (key_of r l) windows
      ≡ some (record { window_start_ms = window_start l now; used = (used + 1) % 2 ^ 32 })
    → used_at windows quota r l now ≡ used + 1
used_at-committed windows quota r l now used c h e =
    used_at-held windows quota r l now ((used + 1) % 2 ^ 32) e ∙ (omega arith)

-- How many calls a window of a rate key counts.
abbrev pub usage : Scheduler → String → RateLimit → ℕ → ℕ
usage s = used_at s.windows s.quota

module _ (r : String) (now : ℕ) (s : Scheduler) where
  abbrev first_pass : Plan
  first_pass = plan_limits r now s.quota (limits_of r s) s.windows

  -- The two outcomes of a call.
  pub try_reserve_at-cases :
      (s' : Scheduler) (out : Reservation)
      → try_reserve_at r now s ≡ (out, s')
      → ((out ≡ permit)
          × (first_pass.wait ≡ none)
          × (s' ≡ commit r first_pass (record s { windows = first_pass.windows })))
        ⊎ ((w : ℕ) × (out ≡ wait_for w) × (s' ≡ record s { windows = first_pass.windows }))
  unfolding try_reserve_at
  try_reserve_at-cases s' out e = elim (Option-cases first_pass.wait) [
    | inl n ↦ inl (ground arith, n, ground arith)
    | inr (w, n) ↦ inr (w, ground arith, ground arith)
  ]

  -- A refused call leaves the stored quota, the limits, and the usage of every window of every key,
  -- at every instant, as they were.
  pub refusal_spends_nothing :
      (w : ℕ) (s' : Scheduler)
      → try_reserve_at r now s ≡ (wait_for w, s')
      → (s'.quota ≡ s.quota)
        × (s'.limits ≡ s.limits)
        × ((t : String) (l : RateLimit) (later : ℕ) → usage s' t l later ≡ usage s t l later)
  refusal_spends_nothing w s' e = elim (try_reserve_at-cases s' (wait_for w) e) [
    | inl h ↦ absurd (cc)
    | inr (v, h, same) ↦ rw same (
      refl,
      refl,
      λ t l later. used_at-plan_limits r t l now later s.quota (limits_of r s) s.windows,
    )
  ]

  -- Where the limits of a key have distinct kinds of windows and caps below 2^32, an admitted
  -- call found room in every window of its key, and counts one more in each.
  pub admission_counts_one :
      (s' : Scheduler)
      → HasDistinctKinds (limits_of r s)
      → All (λ l. cap l < 2 ^ 32) (limits_of r s)
      → try_reserve_at r now s ≡ (permit, s')
      → All
          (λ l. (usage s r l now < cap l) × (usage s' r l now ≡ usage s r l now + 1))
          (limits_of r s)
  unfolding commit
  admission_counts_one s' d small e = elim (try_reserve_at-cases s' permit e) [
    | inl (_, n, same) ↦ rw same (committed n)
    | inr (v, h, same) ↦ absurd (cc)
  ]
    where
      ls : List RateLimit
      ls = limits_of r s

      committed :
          first_pass.wait ≡ none
          → All
              (λ l.
                (usage s r l now < cap l)
                × (usage (commit r first_pass (record s { windows = first_pass.windows })) r l now
                    ≡ usage s r l now + 1))
              ls
      committed n =
          let room = (plan_limits-admits_iff r now s.quota ls s.windows).0 n in
          rw (plan_limits-planned r now s.quota ls s.windows room) (
            All-zip (λ l. usage s r l now < cap l) (λ l. cap l < 2 ^ 32)
              (λ l.
                get (key_of r l)
                  (commit_windows (map (next r now s.quota s.windows) ls) first_pass.windows)
                ≡ some (next r now s.quota s.windows l).1)
              _ ls (λ l u c g. (u, used_at-committed _ _ r l now _ c u g)) room small
              (get-commit_windows-next r now s.quota s.windows ls first_pass.windows d))
