-- ===== src/Refresh/Finish.antt =====
-- What a replay leaves (the end of `refresh_via_chain` in crates/ozint/src/refresh.rs): the result, the
-- node, and what is written to the database.
use ozint.Base.{
  ℕ, String, Bool, true, false, not, ◌&&◌, ◌||◌, if◌then◌else◌, Option, none, some, unwrap_or, List,
  [], ◌∷◌, ◌++◌, concat, any, nat_eq, ◌⊎◌, inl, inr,
}
use ozint.Types.{Json, JsonObject}
use ozint.Types.Payloads.{OzPayload}
use ozint.Types.Defaults.{F64, is_nil}
use ozint.Outcome.{report_new, parse_error}
use ozint.Registry.{ToolDef}
use ozint.Signal.{SignalChip, SignalMode, apply_gated}
use ozint.Signal.Dispatch.{signal_for}
use ozint.Runtime.{merge_patch, merge_sections}
use ozint.Refresh.{
  RefreshError, RefreshNode, RefreshResult, Refreshed, ChainEntry, is_run, resolve_chain,
  nothing_reason, changed_fields, handoff_from_payload,
}
use ozint.Refresh.Chain.{World, Replay, replay_start, Ended, replay_entries}

-- `bill`: nothing is written for nothing.
unfoldable pub bill : ℕ → ℕ → Option (ℕ × ℕ)
bill lookups cost_cents =
    if nat_eq lookups 0 && nat_eq cost_cents 0 then none else some (lookups, cost_cents)

module _ {F : Type 0} where
  unfoldable pub aborted_result : RefreshNode F → Replay → RefreshResult F
  aborted_result node replay = record {
    node = node;
    changed = false;
    changed_fields = [];
    reports = replay.reports;
    children_ignored = 0;
    lookups = replay.lookups;
    cost_cents = replay.cost_cents;
    aborted = true;
    persisted = none;
    billed = none;
  }

  -- The merged payload does not fit the node's type: it is reported, and nothing is applied.
  unfoldable pub misfit_result : String → RefreshNode F → Replay → RefreshResult F
  unfolding bill
  misfit_result error node replay = record {
    node = node;
    changed = false;
    changed_fields = [];
    reports =
        replay.reports
        ++ (report_new "refresh" "refresh"
              (parse_error (
                concat
                  ("the replayed chain did not re-type into this node's payload: " ∷ error ∷ [])))
              0 false "merged the replayed chain into the stored payload"
            ∷ []);
    children_ignored = replay.children_ignored;
    lookups = replay.lookups;
    cost_cents = replay.cost_cents;
    aborted = false;
    persisted = none;
    billed = bill replay.lookups replay.cost_cents;
  }

  unfoldable pub push_prior_observation : RefreshNode F → RefreshNode F
  push_prior_observation node = record node {
    prior_observations =
        node.prior_observations
        ++ (record {
          value = node.value;
          chip = node.preview_signal;
          observed_at = node.retrieved_at;
        }
            ∷ []);
  }

  -- The chip of the new payload, gated where the node is or the replay was.
  gated_chip : Bool → Option (SignalChip F) → Option (SignalChip F)
  unfolding apply_gated
  gated_chip gate none = none
  gated_chip gate (some chip) = some (if gate then apply_gated chip else chip)

-- The chip function, serde's two directions on payloads, and `canonical` of one value. `inl` of a
-- payload that does not fit is serde's message.
pub record Codecs (F : Type 0) : Type 0 where
  pub floats : F64 F
  pub to_lowercase : String → String
  pub to_json : OzPayload F → JsonObject
  pub from_json : JsonObject → String ⊎ OzPayload F
  pub canonical : Json → Json

module _ {F : Type 0} (codecs : Codecs F) where
  unfoldable pub move_payload : Bool → OzPayload F → RefreshNode F → RefreshNode F
  unfolding push_prior_observation gated_chip
  move_payload gated_verdict merged node = record (push_prior_observation node) {
    payload = merged;
    preview_signal =
        gated_chip (gated_verdict || node.gated)
          (signal_for codecs.floats codecs.to_lowercase merged SignalMode.native);
  }

  unfoldable pub applied_node :
      ℕ → Replay → OzPayload F → List String → RefreshNode F → RefreshNode F
  unfolding move_payload
  applied_node now replay merged fields node =
      let shown : RefreshNode F = record node {
        sections = merge_sections node.sections replay.sections;
      } in
      let moved : RefreshNode F =
        if is_nil fields then shown else move_payload replay.gated_verdict merged shown in
      record moved {
        gated = moved.gated || replay.gated_verdict;
        provenance_gated = moved.provenance_gated || replay.gated_verdict;
        retrieved_at = now;
      }

  unfoldable pub applied_result :
      ℕ → Replay → OzPayload F → List String → RefreshNode F → RefreshResult F
  unfolding applied_node bill
  applied_result now replay merged fields node =
      let refreshed_node : RefreshNode F = applied_node now replay merged fields node in
      record {
        node = refreshed_node;
        changed = not (is_nil fields);
        changed_fields = fields;
        reports = replay.reports;
        children_ignored = replay.children_ignored;
        lookups = replay.lookups;
        cost_cents = replay.cost_cents;
        aborted = false;
        persisted = some refreshed_node;
        billed = bill replay.lookups replay.cost_cents;
      }

  -- By serde's reading of the merged payload.
  unfoldable pub settle_payload :
      World → RefreshNode F → Replay → String ⊎ OzPayload F → RefreshResult F
  unfolding misfit_result applied_result changed_fields
  settle_payload world node replay (inl error) = misfit_result error node replay
  settle_payload world node replay (inr merged) =
      applied_result world.now replay merged
        (changed_fields codecs.canonical (codecs.to_json node.payload) (codecs.to_json merged)) node

  unfoldable pub finish : World → RefreshNode F → Ended → RefreshResult F
  unfolding aborted_result settle_payload
  finish world node (Ended.aborted replay) = aborted_result node replay
  finish world node (Ended.finished replay) =
      settle_payload world node replay
        (codecs.from_json (merge_patch (codecs.to_json node.payload) replay.patch))

  unfoldable pub replay_chain : World → RefreshNode F → List ChainEntry → Ended
  unfolding replay_entries handoff_from_payload
  replay_chain world node entries =
      replay_entries world (unwrap_or node.value node.edited_value)
        (handoff_from_payload node.payload) 0 entries replay_start

  module _ (catalogue : List ToolDef) (is_set : String → Bool) where
    unfoldable pub refresh_via_chain : World → RefreshNode F → Refreshed F
    unfolding resolve_chain nothing_reason replay_chain finish
    refresh_via_chain world node =
        let entries : List ChainEntry = resolve_chain catalogue is_set node.tool_chain in
        if not (any is_run entries)
        then Refreshed.refused (
            RefreshError.nothing_to_replay node.tool_chain (nothing_reason node.tool_chain entries))
        else Refreshed.refreshed (finish world node (replay_chain world node entries))
