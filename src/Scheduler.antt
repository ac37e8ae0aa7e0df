-- ===== src/Scheduler.antt =====
-- crates/ozint/src/scheduler.rs: quota windows for each rate key. Instants and windows are in
-- milliseconds. `windows` is the in-memory cache and `quota` the table `oz_quota`, whose reads and
-- writes succeed here. The two locked passes of `try_reserve_at` are two functions, since the lock
-- is released between them.
pub mod Buckets
pub mod Admission
pub mod Windows
pub mod Races
use ozint.Base.{
  ℕ, ◌+◌, ◌-◌, ◌*◌, ◌/◌, ◌%◌, ◌^◌, String, Bool, true, false, ◌≡◌, ◌↔◌, Option, none, some, List,
  [], ◌∷◌, leb, nat_eq, min, if◌then◌else◌, Map, get, insert, unwrap_or, string_eq, pair_eq, Eq,
  is_some, arith,
}

pub data RateLimit : Type 0 where
  per_second per_minute per_hour per_day per_week : (n : ℕ) → RateLimit
  custom : (window cap : ℕ) → RateLimit

unfoldable pub cap : RateLimit → ℕ
cap (per_second n) = n
cap (per_minute n) = n
cap (per_hour n) = n
cap (per_day n) = n
cap (per_week n) = n
cap (custom window n) = n

-- The source divides by a custom window, so one of 0 ms panics there: such a limit is not modelled.
unfoldable pub window_millis : RateLimit → ℕ
window_millis (per_second n) = 1000
window_millis (per_minute n) = 60000
window_millis (per_hour n) = 3600000
window_millis (per_day n) = 86400000
window_millis (per_week n) = 604800000
window_millis (custom window n) = window

-- The strings that `window_kind` makes, one constructor for each: `custom_ms` is `custom-{}ms`.
pub data WindowKind : Type 0 where
  second minute hour day week : WindowKind
  custom_ms : (window : ℕ) → WindowKind

unfoldable pub window_kind : RateLimit → WindowKind
window_kind (per_second n) = second
window_kind (per_minute n) = minute
window_kind (per_hour n) = hour
window_kind (per_day n) = day
window_kind (per_week n) = week
window_kind (custom window n) = custom_ms window

abbrev kind_beq : WindowKind → WindowKind → Bool
kind_beq second second = true
kind_beq minute minute = true
kind_beq hour hour = true
kind_beq day day = true
kind_beq week week = true
kind_beq (custom_ms a) (custom_ms b) = nat_eq a b
kind_beq _ _ = false

pub kind_beq_iff : (a b : WindowKind) → (kind_beq a b ≡ true) ↔ (a ≡ b)
kind_beq_iff a b = ground arith

instance abbrev pub kind_eq : Eq WindowKind
kind_eq = record { beq = kind_beq; beq_iff = kind_beq_iff }

unfoldable pub persists : RateLimit → Bool
persists (per_day n) = true
persists (per_week n) = true
persists _ = false

pub record WindowState : Type 0 where
  pub window_start_ms : ℕ
  pub used : ℕ  -- u32

abbrev pub Key : Type 0
Key = String × WindowKind

pub record Scheduler : Type 0 where
  pub limits : Map String (List RateLimit)
  pub windows : Map Key WindowState
  pub quota : Map Key WindowState

-- `Scheduler::new` over a database: only the stored quota is there.
unfoldable pub scheduler_new : Map Key WindowState → Scheduler
scheduler_new quota = record { limits = []; windows = []; quota = quota }

unfoldable pub register : String → List RateLimit → Scheduler → Scheduler
register rate_key ls s = record s { limits = insert rate_key ls s.limits }

abbrev pub window_start : RateLimit → ℕ → ℕ
window_start l now = (now / window_millis l) * window_millis l

-- The bucket of a window as the pass finds it: cached, or stored, or new.
cached_of : RateLimit → ℕ → Option WindowState → Option WindowState → WindowState
cached_of l now (some held) stored = held
cached_of l now none stored =
    unwrap_or (record { window_start_ms = window_start l now; used = 0 })
      (if persists l then stored else none)

unfoldable pub cached :
    Map Key WindowState → Map Key WindowState → String → RateLimit → ℕ → WindowState
unfolding cached_of
cached windows quota rate_key l now =
    cached_of l now (get (rate_key, window_kind l) windows) (get (rate_key, window_kind l) quota)

-- The same bucket after a window that has passed is rolled over.
unfoldable pub effective : RateLimit → ℕ → WindowState → WindowState
effective l now s =
    if nat_eq s.window_start_ms (window_start l now)
    then s
    else record { window_start_ms = window_start l now; used = 0 }

pub record Plan : Type 0 where
  pub windows : Map Key WindowState
  pub planned : List (Key × WindowState)
  pub wait : Option ℕ

abbrev pub sooner : ℕ → Option ℕ → Option ℕ
sooner candidate none = some candidate
sooner candidate (some w) = some (min w candidate)

-- What the pass does with one limit, given what it does with those behind it.
plan_limit : Key → RateLimit → ℕ → WindowState → Plan → Plan
plan_limit key l now b rest =
    if leb (cap l) b.used
    then record rest { wait = sooner ((b.window_start_ms + window_millis l) - now) rest.wait }
    else record rest {
      planned =
          (key, record { window_start_ms = b.window_start_ms; used = (b.used + 1) % 2 ^ 32 })
          ∷ rest.planned;
    }

-- The first locked pass: read every window, and keep what it loads in the cache.
unfoldable pub plan_limits :
    String → ℕ → Map Key WindowState → List RateLimit → Map Key WindowState → Plan
unfolding cached effective plan_limit
plan_limits rate_key now quota [] windows = record { windows = windows; planned = []; wait = none }
plan_limits rate_key now quota (l ∷ ls) windows =
    let s = cached windows quota rate_key l now in
    plan_limit (rate_key, window_kind l) l now (effective l now s)
      (plan_limits rate_key now quota ls (insert (rate_key, window_kind l) s windows))

-- The second locked pass.
unfoldable pub commit_windows : List (Key × WindowState) → Map Key WindowState → Map Key WindowState
commit_windows [] windows = windows
commit_windows ((k, s) ∷ planned) windows = commit_windows planned (insert k s windows)

-- The write-through of the day and week windows, over `limits.iter().zip(planned)`.
unfoldable pub persist_quota :
    List RateLimit → List (Key × WindowState) → Map Key WindowState → Map Key WindowState
persist_quota (l ∷ ls) ((k, s) ∷ planned) quota =
    persist_quota ls planned (if persists l then insert k s quota else quota)
persist_quota _ _ quota = quota

pub data Reservation : Type 0 where
  permit : Reservation
  wait_for : (wait : ℕ) → Reservation

abbrev pub limits_of : String → Scheduler → List RateLimit
limits_of rate_key s = unwrap_or [] (get rate_key s.limits)

-- The first half of `try_reserve_at`, up to the release of the lock.
unfoldable pub plan : String → ℕ → Scheduler → Plan × Scheduler
plan rate_key now s =
    let p = plan_limits rate_key now s.quota (limits_of rate_key s) s.windows in
    (p, record s { windows = p.windows })

-- The second half, for a plan with no wait.
unfoldable pub commit : String → Plan → Scheduler → Scheduler
commit rate_key p s = record s {
  windows = commit_windows p.planned s.windows;
  quota = persist_quota (limits_of rate_key s) p.planned s.quota;
}

unfoldable pub finish : String → Plan → Scheduler → Reservation × Scheduler
finish rate_key p s = elim p.wait [
  | some w ↦ (wait_for w, s)
  | none ↦ (permit, commit rate_key p s)
]

-- `try_reserve_at` with nothing in between. A key with no limits plans nothing.
unfoldable pub try_reserve_at : String → ℕ → Scheduler → Reservation × Scheduler
unfolding plan finish
try_reserve_at rate_key now s = let (p, s') = plan rate_key now s in finish rate_key p s'
