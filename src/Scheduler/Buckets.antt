-- ===== src/Scheduler/Buckets.antt =====
-- How much of a window is used, and what the first pass of `try_reserve_at` does to it.
use ozint.Base.{
  ℕ, String, ◌≡◌, inl, inr, refl, Option, none, some, List, [], ◌∷◌, arith, Map, get, insert,
  get-insert, string_eq, pair_eq, ◌==◌, ==_iff, Bool-cases, ap, ◌∙◌,
}
use ozint.Scheduler.{
  RateLimit, window_millis, window_kind, kind_eq, persists, WindowState, Key, cached, cached_of,
  effective, plan_limit, plan_limits,
}

-- How many calls a window counts at an instant, by what is cached and what is stored.
unfoldable pub use_of : RateLimit → ℕ → Option WindowState → Option WindowState → ℕ
unfolding cached_of
use_of l now held stored = (effective l now (cached_of l now held stored)).used

unfoldable pub used_at : Map Key WindowState → Map Key WindowState → String → RateLimit → ℕ → ℕ
unfolding use_of
used_at windows quota rate_key l now =
    use_of l now (get (rate_key, window_kind l) windows) (get (rate_key, window_kind l) quota)

-- Two limits with one kind of window share its length and whether it is stored.
same_kind :
    (l k : RateLimit)
    → window_kind l ≡ window_kind k
    → (window_millis l ≡ window_millis k) × (persists l ≡ persists k)
unfolding window_kind window_millis persists
same_kind l k e = ground arith

use_of-load :
    (l k : RateLimit) (now later : ℕ) (held stored : Option WindowState)
    → window_kind l ≡ window_kind k
    → use_of k later (some (cached_of l now held stored)) stored ≡ use_of k later held stored
unfolding use_of cached_of effective
use_of-load l k now later (some s) stored e = refl
use_of-load l k now later none none e = ground arith
use_of-load l k now later none (some s) e = ground (arith, same_kind l k e)

abbrev pub key_of : String → RateLimit → Key
key_of r l = (r, window_kind l)

-- Loading a bucket into the cache changes no usage, at any instant.
pub used_at-load :
    (windows quota : Map Key WindowState) (r t : String) (l k : RateLimit) (now later : ℕ)
    → used_at (insert (key_of r l) (cached windows quota r l now) windows) quota t k later
      ≡ used_at windows quota t k later
unfolding used_at cached
used_at-load windows quota r t l k now later =
    ap (λ o. use_of k later o (get (key_of t k) quota))
      (get-insert (key_of r l) (key_of t k) _ windows)
    ∙ (elim (Bool-cases (key_of r l == key_of t k)) [
      | inl e ↦
          let same = (==_iff (key_of r l) (key_of t k)).0 e in
          rw e (
            rw (← same) (
              use_of-load l k now later (get (key_of r l) windows) (get (key_of r l) quota)
                (ap (λ (p : Key). p.1) same)))
      | inr e ↦ rw e
    ])

-- The first pass of a reservation changes no usage, of any key and at any instant.
pub used_at-plan_limits :
    (r t : String) (k : RateLimit) (now later : ℕ) (quota : Map Key WindowState)
    (ls : List RateLimit) (windows : Map Key WindowState)
    → used_at (plan_limits r now quota ls windows).windows quota t k later
      ≡ used_at windows quota t k later
unfolding plan_limits plan_limit
used_at-plan_limits r t k now later quota [] windows = refl
used_at-plan_limits r t k now later quota (l ∷ ls) windows =
    let s = cached windows quota r l now in
    ground (
      arith,
      used_at-plan_limits r t k now later quota ls (insert (key_of r l) s windows),
      used_at-load windows quota r t l k now later,
    )
