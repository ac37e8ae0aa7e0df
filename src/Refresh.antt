-- ===== src/Refresh.antt =====
-- crates/ozint/src/refresh.rs: running again the tools that made a node. This file has the results,
-- the comparison of two payloads and the chain; the children have the replay and what is proved.
pub mod Chain
pub mod Finish
pub mod Tiles
pub mod Reports
pub mod Kept
pub mod Sweeps
pub mod Cancelled
use ozint.Base.{
  ℕ, String, Bool, true, false, not, if◌then◌else◌, ◌==◌, string_eq, Option, none, some, is_some,
  unwrap_or, List, [], ◌∷◌, ◌++◌, map, filter, concat, Map, get, insert, contains_key, any, All,
}
use ozint.Base.Text.{trim, is_empty, join}
use ozint.Base.Order.{str_ltb}
use ozint.Base.Sorting.{sort_by}
use ozint.Types.{OzType, OzSection, Json, JsonObject}
use ozint.Types.Payloads.{OzPayload, IpPayload}
use ozint.Outcome.{ToolOutcome, ToolReport}
use ozint.Registry.{ToolDef, find, is_armed, first_missing_env, unarmed_outcome}
use ozint.LayerPlan.{Handoff}
use ozint.Signal.{SignalChip}

pub data RefreshError : Type 0 where
  node_not_found : RefreshError
  nothing_to_replay : (chain : List String) (reason : String) → RefreshError

pub record PriorObservation (F : Type 0) : Type 0 where
  pub value : String
  pub chip : Option (SignalChip F)
  pub observed_at : ℕ

-- The part of a node that a refresh reads or writes.
pub record RefreshNode (F : Type 0) : Type 0 where
  pub id : String
  pub investigation_id : String
  pub oz_type : OzType
  pub value : String
  pub edited_value : Option String
  pub payload : OzPayload F
  pub preview_signal : Option (SignalChip F)
  pub sections : List OzSection
  pub gated : Bool
  pub tool_chain : List String
  pub provenance_gated : Bool
  pub retrieved_at : ℕ
  pub prior_observations : List (PriorObservation F)

-- `persisted` and `billed` are the two writes to the database.
pub record RefreshResult (F : Type 0) : Type 0 where
  pub node : RefreshNode F
  pub changed : Bool
  pub changed_fields : List String
  pub reports : List ToolReport
  pub children_ignored : ℕ
  pub lookups : ℕ
  pub cost_cents : ℕ
  pub aborted : Bool
  pub persisted : Option (RefreshNode F)
  pub billed : Option (ℕ × ℕ)

pub data Refreshed (F : Type 0) : Type 0 where
  refused : RefreshError → Refreshed F
  refreshed : RefreshResult F → Refreshed F

unfoldable pub moved_keys : JsonObject → JsonObject → List String
moved_keys [] b = []
moved_keys ((k, v) ∷ a) b =
    let rest = moved_keys a b in
    elim (get k b) [ none ↦ k ∷ rest | some w ↦ if w == v then rest else k ∷ rest ]

unfoldable pub added_keys : JsonObject → JsonObject → List String
added_keys [] a = []
added_keys ((k, v) ∷ b) a = let rest = added_keys b a in if contains_key k a then rest else k ∷ rest

-- `Vec::dedup`: neighbours that are equal are one.
unfoldable pub dedup : List String → List String
dedup [] = []
dedup (k ∷ []) = k ∷ []
dedup (k ∷ j ∷ ks) = let rest = dedup (j ∷ ks) in if k == j then rest else k ∷ rest

-- `canonical` gives one value with its arrays in the order of their rendering, which is serde's.
module _ (canonical : Json → Json) where
  unfoldable pub canonical_object : JsonObject → JsonObject
  canonical_object [] = []
  canonical_object ((k, v) ∷ object) = (k, canonical v) ∷ canonical_object object

  unfoldable pub changed_fields : JsonObject → JsonObject → List String
  unfolding canonical_object moved_keys added_keys dedup
  changed_fields before after =
      let a : JsonObject = canonical_object before in
      let b : JsonObject = canonical_object after in
      dedup (sort_by str_ltb (moved_keys a b ++ added_keys b a))

-- `handoff_from_payload`, under the key `INPUT_ASN`.
asn_of : {F : Type 0} → OzPayload F → Option String
asn_of (OzPayload.ip p) = p.asn
asn_of _ = none

unfoldable pub handoff_from_payload : {F : Type 0} → OzPayload F → Handoff
unfolding asn_of
handoff_from_payload payload = elim (asn_of payload) [
  | none ↦ []
  | some asn ↦ if is_empty (trim asn) then [] else insert "asn" (trim asn) []
]

pub data ChainEntry : Type 0 where
  run : ToolDef → ChainEntry
  skip : ToolDef → ToolOutcome → ChainEntry
  unknown : (id : String) → ChainEntry

abbrev pub is_run : ChainEntry → Bool
is_run (run tool) = true
is_run _ = false

abbrev pub is_unknown : ChainEntry → Bool
is_unknown (unknown id) = true
is_unknown _ = false

module _ (catalogue : List ToolDef) (is_set : String → Bool) where
  unfoldable pub entry_of : String → Option ToolDef → ChainEntry
  unfolding unarmed_outcome
  entry_of id none = unknown id
  entry_of id (some tool) =
      if is_armed is_set tool
      then run tool
      else skip tool (unarmed_outcome tool (unwrap_or "" (first_missing_env is_set tool)))

  unfoldable pub resolve_chain : List String → List ChainEntry
  unfolding entry_of
  resolve_chain [] = []
  resolve_chain (id ∷ chain) = entry_of id (find catalogue id) ∷ resolve_chain chain

-- The reason of a chain in which nothing can run.
unfoldable pub nothing_reason : List String → List ChainEntry → String
nothing_reason [] entries = "this node has no recorded tool chain, so there is no lookup to re-run"
nothing_reason (id ∷ chain) entries =
    if not (any (λ (e : ChainEntry). not (is_unknown e)) entries)
    then concat (
        "no tool in this node's chain ("
        ∷ join ", " (id ∷ chain)
        ∷ ") exists in this build's registry — the node still renders from its stored payload, but it cannot be re-run"
        ∷ [])
    else concat (
        "every tool in this node's chain ("
        ∷ join ", " (id ∷ chain)
        ∷ ") is unarmed — arm its key and refresh again"
        ∷ [])
