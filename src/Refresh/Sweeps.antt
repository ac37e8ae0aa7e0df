-- ===== src/Refresh/Sweeps.antt =====
-- What the probes of a directory say, and what a refresh of any node leaves
-- (`refresh_node` of crates/ozint/src/refresh.rs).
use ozint.Base.{
  ℕ, suc, String, Bool, true, false, ◌≡◌, ◌⊎◌, refl, ap, ◌||◌, arith, inl, inr, if◌then◌else◌,
  if-keeps, Option, none, some, List, [], ◌∷◌, map,
}
use ozint.Types.{is_directory_only}
use ozint.Types.Payloads.{OzPayload, DirectoryTile, DirectoryPayload}
use ozint.Types.Defaults.{is_nil}
use ozint.Outcome.{ToolOutcome, ToolReport, is_success, report_new}
use ozint.Registry.{ToolDef}
use ozint.Fetch.{OzOutcome, fold_fetch_failure}
use ozint.Refresh.{RefreshNode, RefreshResult}
use ozint.Refresh.Chain.{World}
use ozint.Refresh.Finish.{Codecs, aborted_result, push_prior_observation}
use ozint.Refresh.Tiles.{
  Probes, Sweep, tile_is_live, probe_outcome, probed, is_cancelled_probe, probe_tiles, tiles_of,
  swept_node, swept_result, finish_sweep, refresh_tiles, refresh_directory, refresh_node,
}
use ozint.Refresh.Kept.{Keeps, OfResult, refresh_via_chain-Keeps}

is_success-if :
    (b : Bool) (x y : ToolOutcome)
    → is_success x ≡ true
    → is_success y ≡ false
    → is_success (if b then x else y) ≡ b
is_success-if true x y good bad = good
is_success-if false x y good bad = bad

module _ {R : Type 0} where
  probe_outcome-live :
      (outcome : OzOutcome R) → is_success (probe_outcome outcome) ≡ tile_is_live outcome
  unfolding probe_outcome tile_is_live fold_fetch_failure is_success
  probe_outcome-live (OzOutcome.ok response) = refl
  probe_outcome-live (OzOutcome.blocked url) = refl
  probe_outcome-live OzOutcome.cancelled = refl
  probe_outcome-live (OzOutcome.timeout attempts elapsed_ms) = refl
  probe_outcome-live (OzOutcome.too_large cap_bytes) = refl
  probe_outcome-live (OzOutcome.http_error status body_snippet) = is_success-if _ _ _ refl refl
  probe_outcome-live (OzOutcome.transport_error message) = refl
  probe_outcome-live (OzOutcome.parse_error content_type message) = refl

-- The sweep is of these tiles: the same links in the same order, a report for each, and each tile's
-- mark is whether its report is a success.
abbrev pub Matches : List DirectoryTile → Sweep → Type 0
Matches tiles sweep =
    (map (λ (t : DirectoryTile). t.url) sweep.tiles ≡ map (λ (t : DirectoryTile). t.url) tiles)
    × (map (λ (r : ToolReport). r.tool_id) sweep.reports
        ≡ map (λ (t : DirectoryTile). t.tool_id) tiles)
    × (map (λ (t : DirectoryTile). t.live) sweep.tiles
        ≡ map (λ (r : ToolReport). some (is_success r.outcome)) sweep.reports)

module _ {R : Type 0} (probes : Probes R) where
  -- A sweep that was not cancelled keeps the tiles and their order and has one report for each, in that
  -- order. A tile is then marked live exactly where its report is a success.
  pub probe_tiles-Matches :
      (tiles : List DirectoryTile) (i : ℕ)
      → ((probe_tiles probes tiles i).aborted ≡ true) ⊎ Matches tiles (probe_tiles probes tiles i)
  unfolding probe_tiles probed report_new
  probe_tiles-Matches [] i = inr (refl, refl, refl)
  probe_tiles-Matches (tile ∷ tiles) i =
      if-keeps (λ sweep. (sweep.aborted ≡ true) ⊎ Matches (tile ∷ tiles) sweep)
        (probes.is_cancelled i || is_cancelled_probe (probes.probe i tile.url)) (inl refl)
        (elim (probe_tiles-Matches tiles (suc i)) [
          | inl stopped ↦ inl stopped
          | inr m ↦ inr (
            ap (λ urls. tile.url ∷ urls) m.0,
            ap (λ ids. tile.tool_id ∷ ids) m.1,
            rw (probe_outcome-live (probes.probe i tile.url))
                (ap (λ marks. some (tile_is_live (probes.probe i tile.url)) ∷ marks) m.2),
          )
        ])

module _ {F : Type 0} where
  swept_result-Keeps :
      (now : ℕ) (merged : OzPayload F) (fields : List String) (reports : List ToolReport)
      (node : RefreshNode F)
      → Keeps node (swept_result now merged fields reports node)
  unfolding swept_result swept_node push_prior_observation
  swept_result-Keeps now merged [] reports node = (refl, refl, refl, refl, ground arith, refl, refl)
  swept_result-Keeps now merged (f ∷ fs) reports node =
      (refl, refl, refl, refl, ground arith, refl, refl)

module _ {F R : Type 0} (codecs : Codecs F) where
  finish_sweep-Keeps :
      (probes : Probes R) (node : RefreshNode F) (sweep : Sweep)
      → Keeps node (finish_sweep codecs probes node sweep)
  unfolding finish_sweep aborted_result
  finish_sweep-Keeps probes node sweep =
      if-keeps (Keeps node) sweep.aborted (refl, refl, refl, refl, ground arith, refl, refl)
        (swept_result-Keeps probes.now _ _ sweep.reports node)

  -- What holds of every sweep holds of the refresh of a directory.
  refresh_directory-OfResult :
      (P : RefreshResult F → Type 0) (probes : Probes R) (node : RefreshNode F)
      → ((sweep : Sweep) → P (finish_sweep codecs probes node sweep))
      → OfResult P (refresh_directory codecs probes node)
  unfolding refresh_directory refresh_tiles
  refresh_directory-OfResult P probes node h = go (tiles_of node.payload)
    where
      go : (found : Option DirectoryPayload) → OfResult P (refresh_tiles codecs probes node found)
      go none = tt
      go (some payload) =
          if-keeps (OfResult P) (is_nil payload.tiles) tt (h (probe_tiles probes payload.tiles 0))

  module _ (catalogue : List ToolDef) (is_set : String → Bool) (probes : Probes R) (world : World)
      (node : RefreshNode F) where
    -- A refresh that is not refused keeps the identity, the value, the analyst's correction and the chain of a node, and
    -- never clears its gated mark. The payload moves only with a result that is marked as changed, and
    -- then, and only then, the earlier observation is added to those the node has.
    pub refresh_node-Keeps :
        OfResult (Keeps node) (refresh_node codecs catalogue is_set probes world (some node))
    unfolding refresh_node
    refresh_node-Keeps =
        if-keeps (OfResult (Keeps node)) (is_directory_only node.oz_type)
          (refresh_directory-OfResult (Keeps node) probes node (finish_sweep-Keeps probes node))
          (refresh_via_chain-Keeps codecs catalogue is_set world node)
