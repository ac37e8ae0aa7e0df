-- ===== src/Examples/Policies.antt =====
-- Reports, breakers, plans, the visited set and the catalogue on small inputs.
use ozint.Base.{
  ℕ, ◌+◌, ◌*◌, ◌^◌, min, ltb, if◌then◌else◌, String, Bool, true, false, ◌||◌, ◌&&◌, ◌≡◌, ◌↔◌, refl,
  arith, none, some, List, [], ◌∷◌, ap, string_eq, get, insert,
}
use ozint.Types.{OzType, oz_type_eq}
use ozint.Outcome.{
  ToolOutcome, ToolReport, ok_with_results, timeout, http_error, skipped_no_key,
  skipped_circuit_open, report_new, was_attempted, is_error, is_success, degraded, settle_kind,
}
use ozint.Outcome.Classes.{attempted_split}
use ozint.Outcome.Settle.{Verdict, settle_kind-iff-Verdict}
use ozint.Health.{
  open_, half_open, Breaker, breaker_default, record_breaker, is_fault, ToolHealth, entry, check,
  check_breaker,
}
use ozint.Health.Invariant.{
  Call, checks, records, run, AllSound, IsSound, nil-AllSound, insert-AllSound, history-AllSound,
}
use ozint.Health.Trips.{record_all, ThreeInARow, trips_iff}
use ozint.Health.Probes.{half_open-check_refuses, tripped, failed_again, check_breaker-Outage}
use ozint.LayerPlan.{
  acc_default, LayerPhase, LayerPlan, always, reputation_flagged, holds, firing_now, value_status,
  fact, flag,
}
use ozint.LayerPlan.Firing.{Fires, firing_now-Fires}
use ozint.LayerPlan.Handoff.{
  Publication, publish_all, under, published_status, value_status-publish_all,
}
use ozint.Visited.{VisitedEntry, VisitedSet}
use ozint.Registry.{ToolDef, AccessTier}

abbrev report_of : String → ToolOutcome → ToolReport
report_of id o = report_new id id o 5 false "queried"

abbrev mixed : List ToolReport
mixed =
    report_of "a" (ok_with_results 2)
    ∷ report_of "b" (timeout 9)
    ∷ report_of "c" (skipped_no_key "KEY")
    ∷ []

settle_kind-iff-Verdict_example :
    (settle_kind mixed 1 false ≡ degraded) ↔ Verdict mixed 1 false degraded
settle_kind-iff-Verdict_example = settle_kind-iff-Verdict mixed 1 false degraded

abbrev swapped : List ToolReport
swapped =
    report_of "b" (timeout 9)
    ∷ report_of "a" (ok_with_results 2)
    ∷ report_of "c" (skipped_no_key "KEY")
    ∷ []

attempted_split_example :
    (was_attempted (http_error 404 none)
      ≡ (is_error (http_error 404 none) || is_success (http_error 404 none)))
    × ((is_error (http_error 404 none) && is_success (http_error 404 none)) ≡ false)
attempted_split_example = attempted_split (http_error 404 none)

abbrev faults : List (ℕ × ToolOutcome)
faults = (10, timeout 9) ∷ (20, http_error 503 none) ∷ (30, timeout 9) ∷ []

trips_iff_example : ((record_all faults breaker_default).state ≡ open_) ↔ ThreeInARow faults
trips_iff_example = trips_iff faults

abbrev calls : List Call
calls = checks 5 "dns" ∷ records 10 "dns" (timeout 9) ∷ checks 20 "whois" ∷ []

history-AllSound_example : (m : ToolHealth) × (run calls [] ≡ some m) × AllSound m
history-AllSound_example = history-AllSound calls

abbrev probing : Breaker
probing = record {
  state = half_open;
  consecutive_failures = 3;
  backoff_secs = 30;
  opens_until = some 40000;
  probe_in_flight = true;
}

probing-IsSound : IsSound probing
probing-IsSound = ground arith

abbrev probed : ToolHealth
probed = insert "dns" probing []

probed-entry : entry "dns" probed ≡ probing
unfolding entry insert get
probed-entry = refl

half_open-check_refuses_example :
    check 9000000 "dns" probed
    ≡ some (
      some (skipped_circuit_open (entry "dns" probed).opens_until),
      insert "dns" (entry "dns" probed) probed,
    )
unfolding run
half_open-check_refuses_example =
    half_open-check_refuses "dns" [] 9000000 probed probed
      (insert-AllSound "dns" probing [] probing-IsSound nil-AllSound)
      (ap (λ (b : Breaker). b.state) probed-entry) tt refl

abbrev two_faults : Breaker
two_faults = record breaker_default { consecutive_failures = 2 }

two_faults-IsSound : IsSound two_faults
unfolding breaker_default
two_faults-IsSound = ground arith

-- The breaker after a probe that failed at 40 s, half-open again from 100 s on.
abbrev dead_again : Breaker
dead_again = record {
  state = open_;
  consecutive_failures = 3;
  backoff_secs = 60;
  opens_until = some 100000;
  probe_in_flight = false;
}

check_breaker-Outage_example :
    check_breaker 50000 dead_again
    ≡ some (
        if ltb 50000 (40000 + min (30 * 2 ^ 1) 3600 * 1000)
        then (some (skipped_circuit_open (some (40000 + min (30 * 2 ^ 1) 3600 * 1000))), dead_again)
        else (none, record dead_again { state = half_open; probe_in_flight = true }))
unfolding record_breaker check_breaker is_fault breaker_default
check_breaker-Outage_example = check_breaker-Outage 50000 (
    failed_again 35000 40000 (timeout 9)
      (tripped 30 (timeout 9) two_faults two_faults-IsSound refl refl) refl refl)

abbrev plan : LayerPlan
plan =
    record { id = "first"; gate = reputation_flagged; tools = "abuse" ∷ [] }
    ∷ record { id = "second"; gate = always; tools = "dns" ∷ "whois" ∷ [] }
    ∷ []

abbrev second_phase : LayerPhase
second_phase = record { id = "second"; gate = always; tools = "dns" ∷ "whois" ∷ [] }

firing_now-Fires_example : Fires plan 0 acc_default 1 second_phase
unfolding firing_now holds reputation_flagged fact flag get
firing_now-Fires_example = firing_now-Fires plan 0 acc_default refl

abbrev published : List Publication
published = ("sha1", "aa", "virustotal") ∷ ("sha1", "bb", "circl") ∷ ("md5", "cc", "circl") ∷ []

value_status-publish_all_example :
    value_status (publish_all published acc_default) "sha1"
    ≡ published_status (under "sha1" published)
value_status-publish_all_example = value_status-publish_all "sha1" published

abbrev entry_at : String → VisitedEntry
entry_at id = record { node_id = id; depth = 1; layer_id = none }

abbrev seen : VisitedSet
seen = ((OzType.ip, "ip:a"), entry_at "n1") ∷ ((OzType.domain, "domain:b"), entry_at "n2") ∷ []

abbrev tool_named : String → List String → Bool → ToolDef
tool_named id env_vars gated = record {
  id = id;
  label = id;
  types = OzType.hash ∷ [];
  access_tier = AccessTier.free_key;
  env_vars = env_vars;
  needs_input = [];
  gated = gated;
  gated_reason = none;
  cost_cents = 0;
  rate_key = id;
  ttl_secs = 60;
  licence = "CC0";
  attribution = none;
  method = "queried";
}

abbrev catalogue : List ToolDef
catalogue = tool_named "circl" [] false ∷ tool_named "vt" ("VT_KEY" ∷ []) false ∷ []

abbrev unset : String → Bool
unset name = false
