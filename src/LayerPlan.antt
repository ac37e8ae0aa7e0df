-- ===== src/LayerPlan.antt =====
-- crates/ozint/src/layer_plan.rs: the phases of a layer, the facts that their predicates read, and
-- the values that one phase hands to the next. Facts are `f64` in the source; the one fact that a
-- tool posts is a count of engines, so they are natural numbers here.
pub mod Handoff
pub mod Firing
use ozint.Base.{
  ℕ, zero, suc, ◌+◌, String, Bool, true, false, not, ◌&&◌, ◌||◌, Option, none, some, List, [], ◌∷◌,
  ◌++◌, leb, ltb, nat_eq, if◌then◌else◌, Map, get, insert, unwrap_or, string_eq, ◌==◌, length,
  count,
}

pub record HandoffValue : Type 0 where
  pub value : String
  pub from : String
  pub disputed_by : Option (String × String)

pub record PhaseAcc : Type 0 where
  pub tools_run : List String
  pub tools_with_results : List String
  pub children : ℕ
  pub facts : Map String ℕ
  pub flags : Map String Bool
  pub values : Map String HandoffValue

-- `PhaseAcc::default()`.
abbrev pub acc_default : PhaseAcc
acc_default = record {
  tools_run = [];
  tools_with_results = [];
  children = 0;
  facts = [];
  flags = [];
  values = [];
}

abbrev pub Handoff : Type 0
Handoff = Map String String

pub data ValueStatus : Type 0 where
  absent : ValueStatus
  ready : (value from : String) → ValueStatus
  disputed : (first second : String × String) → ValueStatus

-- What `set_value` leaves under the key it writes.
publish : Option HandoffValue → String → String → HandoffValue
publish none value from = record { value = value; from = from; disputed_by = none }
publish (some held) value from =
    if held.value == value
    then held
    else record held { disputed_by = some (unwrap_or (from, value) held.disputed_by) }

unfoldable pub set_value : String → String → String → PhaseAcc → PhaseAcc
unfolding publish
set_value key value from acc = record acc {
  values = insert key (publish (get key acc.values) value from) acc.values;
}

status_of : Option HandoffValue → ValueStatus
status_of none = absent
status_of (some held) = elim held.disputed_by [
  | none ↦ ready held.value held.from
  | some (other_from, other_value) ↦ disputed (held.from, held.value) (other_from, other_value)
]

unfoldable pub value_status : PhaseAcc → String → ValueStatus
unfolding status_of
value_status acc key = status_of (get key acc.values)

abbrev pub readable : ValueStatus → Option String
readable (ready value from) = some value
readable _ = none

-- `PhaseAcc::value`.
unfoldable pub value : PhaseAcc → String → Option String
unfolding value_status
value acc key = readable (value_status acc key)

snapshot : Map String HandoffValue → Handoff
snapshot [] = []
snapshot ((k, v) ∷ m) =
    let rest = snapshot m in elim v.disputed_by [ none ↦ (k, v.value) ∷ rest | some _ ↦ rest ]

unfoldable pub handoff : PhaseAcc → Handoff
unfolding snapshot
handoff acc = snapshot acc.values

unfoldable pub fact : PhaseAcc → String → Option ℕ
fact acc key = get key acc.facts

unfoldable pub flag : PhaseAcc → String → Bool
flag acc key = unwrap_or false (get key acc.flags)

unfoldable pub set_fact : String → ℕ → PhaseAcc → PhaseAcc
set_fact key v acc = record acc { facts = insert key v acc.facts }

unfoldable pub set_flag : String → Bool → PhaseAcc → PhaseAcc
set_flag key v acc = record acc { flags = insert key v acc.flags }

pub data Predicate : Type 0 where
  always : Predicate
  when : (name : String) (test : PhaseAcc → Bool) → Predicate

unfoldable pub holds : Predicate → PhaseAcc → Bool
holds always acc = true
holds (when name test) acc = test acc

unfoldable pub predicate_name : Predicate → String
predicate_name always = "always"
predicate_name (when name test) = name

abbrev pub abuse_escalation_threshold : ℕ
abuse_escalation_threshold = 25

unfoldable pub reputation_flagged : Predicate
unfolding fact flag
reputation_flagged = when "reputation-flagged" (λ acc.
    leb abuse_escalation_threshold (unwrap_or 0 (fact acc "abuse-score"))
    || (flag acc "anonymizer" || flag acc "malicious"))

unfoldable pub enough_confirmed_hits : Predicate
unfolding fact
enough_confirmed_hits =
    when "enough-confirmed-hits" (λ acc. leb 3 (unwrap_or 0 (fact acc "confirmed-sites")))

unfoldable pub has_breach_hits : Predicate
unfolding fact
has_breach_hits = when "has-breach-hits" (λ acc. ltb 0 (unwrap_or 0 (fact acc "breach-count")))

unfoldable pub has_detections : Predicate
unfolding fact
has_detections = when "has-detections" (λ acc. leb 3 (unwrap_or 0 (fact acc "detections")))

unfoldable pub not_freemail : Predicate
unfolding flag
not_freemail = when "not-freemail" (λ acc. not (flag acc "freemail"))

unfoldable pub not_malware : Predicate
unfolding flag
not_malware = when "not-malware" (λ acc. not (flag acc "malware"))

unfoldable pub no_children_yet : Predicate
no_children_yet = when "no-children-yet" (λ acc. nat_eq acc.children 0)

unfoldable pub authoritative_source_silent : Predicate
unfolding flag
authoritative_source_silent =
    when "authoritative-source-silent" (λ acc. not (flag acc "authoritative-answered"))

unfoldable pub no_authoritative_or_aggregate_answer : Predicate
unfolding flag
no_authoritative_or_aggregate_answer =
    when "no-authoritative-or-aggregate-answer"
      (λ acc. not (flag acc "authoritative-answered") && not (flag acc "aggregate-answered"))

pub record LayerPhase : Type 0 where
  pub id : String
  pub gate : Predicate
  pub tools : List String

abbrev pub LayerPlan : Type 0
LayerPlan = List LayerPhase

-- `enumerate().skip(phase_index).find(..)`, at the index of the head of the list.
find_phase : ℕ → LayerPlan → ℕ → PhaseAcc → Option (ℕ × LayerPhase)
unfolding holds
find_phase idx [] skip acc = none
find_phase idx (phase ∷ phases) (suc skip) acc = find_phase (suc idx) phases skip acc
find_phase idx (phase ∷ phases) zero acc =
    let rest = find_phase (suc idx) phases zero acc in
    if holds phase.gate acc then some (idx, phase) else rest

unfoldable pub firing_now : LayerPlan → ℕ → PhaseAcc → Option (ℕ × LayerPhase)
unfolding find_phase
firing_now plan phase_index acc = find_phase 0 plan phase_index acc

-- `PhaseSkip::Predicate` carries the name alone.
unfoldable pub skipped_from : LayerPlan → ℕ → PhaseAcc → List (LayerPhase × String)
unfolding holds predicate_name
skipped_from [] skip acc = []
skipped_from (phase ∷ phases) (suc skip) acc = skipped_from phases skip acc
skipped_from (phase ∷ phases) zero acc =
    let rest = skipped_from phases zero acc in
    if holds phase.gate acc then rest else (phase, predicate_name phase.gate) ∷ rest

unfoldable pub max_possible : LayerPlan → ℕ
max_possible [] = 0
max_possible (phase ∷ phases) = length phase.tools + max_possible phases

unfoldable pub gated_count : LayerPlan → (String → Bool) → ℕ
gated_count [] is_gated = 0
gated_count (phase ∷ phases) is_gated = count is_gated phase.tools + gated_count phases is_gated

unfoldable pub all_tools : LayerPlan → List String
all_tools [] = []
all_tools (phase ∷ phases) = phase.tools ++ all_tools phases
