-- ===== src/Scheduler/Races.antt =====
-- Two calls of `try_reserve_at` for one key whose passes interleave: the lock on the windows is
-- released between the pass that reads them and the pass that writes them.
use ozint.Base.{
  ℕ, ◌+◌, ◌^◌, ◌<◌, String, ◌≡◌, refl, ◌∙◌, ap, none, some, List, [], ◌∷◌, map, Map, All, All-zip,
  get, string_eq, pair_eq,
}
use ozint.Scheduler.{
  RateLimit, cap, WindowState, Key, Scheduler, Plan, plan_limits, commit_windows, permit, limits_of,
  plan, kind_eq, commit, finish,
}
use ozint.Scheduler.Buckets.{used_at, key_of, used_at-plan_limits}
use ozint.Scheduler.Admission.{
  HasDistinctKinds, HasRoom, usage, next, used_at-committed, get-commit_windows-next,
  plan_limits-admits_iff, plan_limits-planned,
}

module _ (r : String) (now : ℕ) (s : Scheduler) where
  abbrev all : List RateLimit
  all = limits_of r s

  abbrev seen : Map Key WindowState
  seen = (plan_limits r now s.quota all s.windows).windows

  HasRoom-seen :
      (ls : List RateLimit) → HasRoom r now s.quota s.windows ls → HasRoom r now s.quota seen ls
  HasRoom-seen [] h = tt
  HasRoom-seen (l ∷ ls) (u, h) =
      (rw (used_at-plan_limits r r l now now s.quota all s.windows) u, HasRoom-seen ls h)

  finish_free :
      (p : Plan) (s₀ : Scheduler) → p.wait ≡ none → finish r p s₀ ≡ (permit, commit r p s₀)
  unfolding finish
  finish_free p s₀ e = rw e

  -- The usage after the second of two writes of one plan each.
  counted :
      (first : List (Key × WindowState)) (windows : Map Key WindowState)
      → HasDistinctKinds all
      → All (λ l. cap l < 2 ^ 32) all
      → HasRoom r now s.quota seen all
      → (quota : Map Key WindowState)
      → All
          (λ l.
            used_at
              (commit_windows
                (plan_limits r now s.quota all seen).planned
                (commit_windows first windows))
              quota
              r
              l
              now
            ≡ usage s r l now + 1)
          all
  counted first windows d small room quota = rw (plan_limits-planned r now s.quota all seen room) (
      All-zip (λ l. used_at seen s.quota r l now < cap l) (λ l. cap l < 2 ^ 32)
        (λ l.
          get (key_of r l)
            (commit_windows (map (next r now s.quota seen) all) (commit_windows first windows))
          ≡ some (next r now s.quota seen l).1)
        _ all
        (λ l u c g.
          used_at-committed _ quota r l now _ c u g
          ∙ ap (λ (n : ℕ). n + 1) (used_at-plan_limits r r l now now s.quota all s.windows))
        room small
        (get-commit_windows-next r now s.quota seen all (commit_windows first windows) d))

  -- Where the limits of a key have distinct kinds of windows and caps below 2^32 and every
  -- window has room, two calls that both read before either writes are both admitted, and are
  -- counted as one: with one call left in a window, two go through.
  pub race_admits_two :
      HasDistinctKinds all
      → All (λ l. cap l < 2 ^ 32) all
      → HasRoom r now s.quota s.windows all
      → let (p, s₁) = plan r now s in
        let (q, s₂) = plan r now s₁ in
        let (a, s₃) = finish r p s₂ in
        let (b, s₄) = finish r q s₃ in
        (a ≡ permit) × (b ≡ permit) × All (λ l. usage s₄ r l now ≡ usage s r l now + 1) all
  unfolding plan commit
  race_admits_two d small room =
      let p = plan_limits r now s.quota all s.windows in
      let q = plan_limits r now s.quota all seen in
      let room' = HasRoom-seen all room in
      let s₂ = record s { windows = q.windows } in
      rw (finish_free p s₂ ((plan_limits-admits_iff r now s.quota all s.windows).1 room)) (
        rw (finish_free q (commit r p s₂) ((plan_limits-admits_iff r now s.quota all seen).1 room'))
          (refl, refl, counted p.planned q.windows d small room' _))
