-- ===== src/Refresh/Tiles.antt =====
-- The refresh of a directory's tiles and the entry point (`probe_tiles`, `refresh_directory` and
-- `refresh_node` of crates/ozint/src/refresh.rs).
use ozint.Base.{
  ℕ, suc, String, Bool, true, false, not, ◌||◌, if◌then◌else◌, nat_eq, Option, none, some,
  unwrap_or, List, [], ◌∷◌, concat,
}
use ozint.Types.{OzType, code, is_directory_only}
use ozint.Types.Payloads.{OzPayload, DirectoryTile, DirectoryPayload, payload_type}
use ozint.Types.Defaults.{is_nil}
use ozint.Outcome.{ToolOutcome, ToolReport, report_new}
use ozint.Registry.{ToolDef}
use ozint.Fetch.{OzOutcome, fold_fetch_failure}
use ozint.Refresh.{RefreshError, RefreshNode, RefreshResult, Refreshed, changed_fields}
use ozint.Refresh.Chain.{World, replay_start}
use ozint.Refresh.Finish.{Codecs, bill, aborted_result, push_prior_observation, refresh_via_chain}

unfoldable pub tile_is_live : {R : Type 0} → OzOutcome R → Bool
tile_is_live (OzOutcome.ok response) = true
tile_is_live (OzOutcome.http_error status body_snippet) =
    nat_eq status 401 || nat_eq status 403 || nat_eq status 405 || nat_eq status 429
tile_is_live _ = false

-- What the world answers at each tile.
pub record Probes (R : Type 0) : Type 0 where
  pub is_cancelled : ℕ → Bool
  pub probe : ℕ → String → OzOutcome R
  pub elapsed_ms : ℕ → ℕ
  pub now : ℕ

pub record Sweep : Type 0 where
  pub tiles : List DirectoryTile
  pub reports : List ToolReport
  pub aborted : Bool

module _ {R : Type 0} where
  unfoldable pub probe_outcome : OzOutcome R → ToolOutcome
  unfolding tile_is_live
  probe_outcome outcome =
      if tile_is_live outcome
      then ToolOutcome.ok_with_results 1
      else unwrap_or (ToolOutcome.parse_error "unreadable probe") (fold_fetch_failure outcome)

  -- One tile that was probed, before those that follow it.
  unfoldable pub probed : DirectoryTile → OzOutcome R → ℕ → Sweep → Sweep
  unfolding probe_outcome
  probed tile outcome elapsed later = record {
    tiles = record tile { live = some (tile_is_live outcome) } ∷ later.tiles;
    reports =
        report_new tile.tool_id tile.label (probe_outcome outcome) elapsed false
          "HEAD liveness probe of the tile's launch URL"
        ∷ later.reports;
    aborted = later.aborted;
  }

  unfoldable pub is_cancelled_probe : OzOutcome R → Bool
  is_cancelled_probe OzOutcome.cancelled = true
  is_cancelled_probe _ = false

  unfoldable pub probe_tiles : Probes R → List DirectoryTile → ℕ → Sweep
  unfolding probed is_cancelled_probe
  probe_tiles probes [] i = record { tiles = []; reports = []; aborted = false }
  probe_tiles probes (tile ∷ tiles) i =
      let later = probe_tiles probes tiles (suc i) in
      if probes.is_cancelled i || is_cancelled_probe (probes.probe i tile.url)
      then record { tiles = tile ∷ tiles; reports = []; aborted = true }
      else probed tile (probes.probe i tile.url) (probes.elapsed_ms i) later

-- `{:?}` of an entity type.
unfoldable pub debug_type : OzType → String
debug_type OzType.username = "Username"
debug_type OzType.email = "Email"
debug_type OzType.phone = "Phone"
debug_type OzType.ip = "Ip"
debug_type OzType.domain = "Domain"
debug_type OzType.hash = "Hash"
debug_type OzType.image = "Image"
debug_type OzType.video = "Video"
debug_type OzType.coordinate = "Coordinate"
debug_type OzType.cve = "Cve"
debug_type OzType.directory = "Directory"
debug_type OzType.name = "Name"

module _ {F : Type 0} where
  unfoldable pub tiles_of : OzPayload F → Option DirectoryPayload
  tiles_of (OzPayload.directory p) = some p
  tiles_of (OzPayload.name p) = some p
  tiles_of _ = none

  unfoldable pub merged_tiles : OzType → List DirectoryTile → OzPayload F
  merged_tiles OzType.name tiles = OzPayload.name (record { tiles = tiles })
  merged_tiles _ tiles = OzPayload.directory (record { tiles = tiles })

  unfoldable pub mismatch_reason : RefreshNode F → String
  unfolding debug_type
  mismatch_reason node = concat (
      "node is "
      ∷ code node.oz_type
      ∷ " but carries a "
      ∷ debug_type (payload_type F node.payload)
      ∷ " payload — nothing to probe"
      ∷ [])

  unfoldable pub swept_node : ℕ → OzPayload F → List String → RefreshNode F → RefreshNode F
  swept_node now merged fields node =
      let moved : RefreshNode F =
        if is_nil fields then node else record (push_prior_observation node) { payload = merged } in
      record moved { retrieved_at = now }

  -- One lookup, whatever the number of tiles.
  unfoldable pub swept_result :
      ℕ → OzPayload F → List String → List ToolReport → RefreshNode F → RefreshResult F
  unfolding swept_node bill
  swept_result now merged fields reports node =
      let swept : RefreshNode F = swept_node now merged fields node in
      record {
        node = swept;
        changed = not (is_nil fields);
        changed_fields = fields;
        reports = reports;
        children_ignored = 0;
        lookups = 1;
        cost_cents = 0;
        aborted = false;
        persisted = some swept;
        billed = bill 1 0;
      }

module _ {F R : Type 0} (codecs : Codecs F) where
  unfoldable pub finish_sweep : Probes R → RefreshNode F → Sweep → RefreshResult F
  unfolding swept_result merged_tiles aborted_result changed_fields
  finish_sweep probes node sweep =
      let merged : OzPayload F = merged_tiles node.oz_type sweep.tiles in
      if sweep.aborted
      then aborted_result node (record replay_start { reports = sweep.reports })
      else swept_result probes.now merged
          (changed_fields codecs.canonical (codecs.to_json node.payload) (codecs.to_json merged))
          sweep.reports node

  -- By the tiles of the payload, `none` for a payload that is no directory's.
  unfoldable pub refresh_tiles : Probes R → RefreshNode F → Option DirectoryPayload → Refreshed F
  unfolding mismatch_reason probe_tiles finish_sweep
  refresh_tiles probes node none =
      Refreshed.refused (RefreshError.nothing_to_replay node.tool_chain (mismatch_reason node))
  refresh_tiles probes node (some payload) =
      if is_nil payload.tiles
      then Refreshed.refused (
          RefreshError.nothing_to_replay node.tool_chain
            "this directory node carries no tiles, so there is no URL to re-check")
      else Refreshed.refreshed (finish_sweep probes node (probe_tiles probes payload.tiles 0))

  unfoldable pub refresh_directory : Probes R → RefreshNode F → Refreshed F
  unfolding refresh_tiles tiles_of
  refresh_directory probes node = refresh_tiles probes node (tiles_of node.payload)

  -- `none` is a node that the store does not have, or fails to read.
  unfoldable pub refresh_node :
      List ToolDef → (String → Bool) → Probes R → World → Option (RefreshNode F) → Refreshed F
  unfolding refresh_directory
  refresh_node catalogue is_set probes world none = Refreshed.refused RefreshError.node_not_found
  refresh_node catalogue is_set probes world (some node) =
      if is_directory_only node.oz_type
      then refresh_directory probes node
      else refresh_via_chain codecs catalogue is_set world node
