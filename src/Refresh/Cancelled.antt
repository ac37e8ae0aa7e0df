-- ===== src/Refresh/Cancelled.antt =====
-- When a refresh is cancelled, and what it then leaves (crates/ozint/src/refresh.rs).
use ozint.Base.{
  ℕ, suc, String, Bool, true, false, ◌≡◌, ◌⊎◌, refl, ap, subst, not, ◌||◌, inl, inr, if◌then◌else◌,
  arith, if-cases, Option, none, some, List, [], ◌∷◌, any, unwrap_or,
}
use ozint.Types.{is_directory_only}
use ozint.Types.Payloads.{OzPayload, DirectoryTile, DirectoryPayload}
use ozint.Types.Defaults.{is_nil}
use ozint.Registry.{ToolDef}
use ozint.LayerPlan.{Handoff}
use ozint.Runtime.{merge_patch}
use ozint.Runtime.Layer.{DispatchOutcome}
use ozint.Refresh.{
  Refreshed, ChainEntry, RefreshNode, RefreshResult, is_run, resolve_chain, handoff_from_payload,
}
use ozint.Refresh.Chain.{
  World, Replay, replay_start, Ended, replay_entries, stopped_at, take_answer, add_report,
  skip_report, unknown_report,
}
use ozint.Refresh.Finish.{
  Codecs, bill, finish, settle_payload, replay_chain, aborted_result, misfit_result, applied_result,
  refresh_via_chain,
}
use ozint.Refresh.Tiles.{
  Probes, Sweep, is_cancelled_probe, probed, probe_tiles, tiles_of, swept_result, finish_sweep,
  refresh_tiles, refresh_directory, refresh_node,
}
use ozint.Refresh.Kept.{IsUntouched, is_runnable, any-resolve_chain}

abbrev is_dispatch_cancelled : DispatchOutcome → Bool
is_dispatch_cancelled DispatchOutcome.dispatch_cancelled = true
is_dispatch_cancelled (DispatchOutcome.ran outcome produced) = false

-- The cancel signal is up before one of the tools that can run, or the dispatch of one comes back
-- cancelled.
abbrev pub chain_cancelled : World → String → Handoff → ℕ → List ChainEntry → Bool
chain_cancelled world value handoff i [] = false
chain_cancelled world value handoff i (ChainEntry.run tool ∷ entries) =
    (world.is_cancelled i || is_dispatch_cancelled (world.dispatch i tool value handoff))
    || chain_cancelled world value handoff (suc i) entries
chain_cancelled world value handoff i (ChainEntry.skip tool outcome ∷ entries) =
    chain_cancelled world value handoff (suc i) entries
chain_cancelled world value handoff i (ChainEntry.unknown id ∷ entries) =
    chain_cancelled world value handoff (suc i) entries

-- The cancel signal is up before one of the tiles, or its probe comes back cancelled.
abbrev pub tiles_cancelled : {R : Type 0} → Probes R → List DirectoryTile → ℕ → Bool
tiles_cancelled probes [] i = false
tiles_cancelled probes (tile ∷ tiles) i =
    (probes.is_cancelled i || is_cancelled_probe (probes.probe i tile.url))
    || tiles_cancelled probes tiles (suc i)

-- What a refresh answers and leaves, cancelled or not. Where the new payload does not fit the node,
-- the lookups are billed all the same and nothing else is written.
module _ {F : Type 0} where
  abbrev pub Settles : Bool → RefreshNode F → RefreshResult F → Type 0
  Settles true node result = (result.aborted ≡ true) × IsUntouched node result
  Settles false node result =
      (result.aborted ≡ false)
      × (result.billed ≡ bill result.lookups result.cost_cents)
      × ((result.persisted ≡ some result.node) ⊎ (result.persisted ≡ none) × (result.node ≡ node))

  Settles-if :
      (node : RefreshNode F) (b : Bool) (x y : RefreshResult F)
      → Settles true node x
      → Settles false node y
      → Settles b node (if b then x else y)
  Settles-if node true x y hx hy = hx
  Settles-if node false x y hx hy = hy

-- Refused where there is nothing to look up again, and a result with a property otherwise.
abbrev pub Answers : {F : Type 0} → Bool → (RefreshResult F → Type 0) → Refreshed F → Type 0
Answers able P (Refreshed.refused error) = able ≡ false
Answers able P (Refreshed.refreshed result) = (able ≡ true) × P result

-- Three choices by one test.
if-all {ℓ κ μ ν} :
    {A : Type ℓ} {B : Type κ} {C : Type μ} (P : A → B → C → Type ν) (b : Bool) {x y : A} {z w : B}
    {u v : C}
    → P x z u
    → P y w v
    → P (if b then x else y) (if b then z else w) (if b then u else v)
if-all P true h k = h
if-all P false h k = k

abbrev is_aborted : Ended → Bool
is_aborted (Ended.aborted replay) = true
is_aborted (Ended.finished replay) = false

module _ (world : World) (value : String) (handoff : Handoff) where
  replay_entries-cancelled :
      (entries : List ChainEntry) (i : ℕ) (replay : Replay)
      → is_aborted (replay_entries world value handoff i entries replay)
        ≡ chain_cancelled world value handoff i entries
  unfolding replay_entries stopped_at
  replay_entries-cancelled [] i replay = refl
  replay_entries-cancelled (ChainEntry.skip tool outcome ∷ rest) i replay =
      replay_entries-cancelled rest (suc i) (add_report (skip_report tool outcome) replay)
  replay_entries-cancelled (ChainEntry.unknown id ∷ rest) i replay =
      replay_entries-cancelled rest (suc i) (add_report (unknown_report id) replay)
  replay_entries-cancelled (ChainEntry.run tool ∷ rest) i replay =
      go (world.is_cancelled i) (world.dispatch i tool value handoff) (λ outcome produced.
        replay_entries-cancelled rest (suc i)
          (take_answer tool outcome produced (world.elapsed_ms i) replay))
    where
      go :
          (b : Bool) (d : DispatchOutcome)
          → ((outcome : _) (produced : _)
              → is_aborted (
                  replay_entries world value handoff
                    (suc i)
                    rest
                    (take_answer tool outcome produced (world.elapsed_ms i) replay))
                ≡ chain_cancelled world value handoff (suc i) rest)
          → is_aborted (elim b [
            | true ↦ stopped_at (ChainEntry.run tool ∷ rest) replay
            | false ↦ elim d [
              | DispatchOutcome.dispatch_cancelled ↦ stopped_at (ChainEntry.run tool ∷ rest) replay
              | DispatchOutcome.ran outcome produced ↦
                  replay_entries world value handoff
                    (suc i)
                    rest
                    (take_answer tool outcome produced (world.elapsed_ms i) replay)
            ]
          ])
            ≡ ((b || is_dispatch_cancelled d) || chain_cancelled world value handoff (suc i) rest)
      go true d ih = refl
      go false DispatchOutcome.dispatch_cancelled ih = refl
      go false (DispatchOutcome.ran outcome produced) ih = ih outcome produced

aborted-if :
    (b c : Bool) (x y : Sweep)
    → x.aborted ≡ true
    → y.aborted ≡ c
    → (if b then x else y).aborted ≡ (b || c)
aborted-if true c x y stopped later = stopped
aborted-if false c x y stopped later = later

module _ {R : Type 0} (probes : Probes R) where
  probe_tiles-cancelled :
      (tiles : List DirectoryTile) (i : ℕ)
      → (probe_tiles probes tiles i).aborted ≡ tiles_cancelled probes tiles i
  unfolding probe_tiles probed
  probe_tiles-cancelled [] i = refl
  probe_tiles-cancelled (tile ∷ tiles) i =
      aborted-if _ _ _ _ refl (probe_tiles-cancelled tiles (suc i))

module _ {F : Type 0} (codecs : Codecs F) where
  finish-Settles :
      (world : World) (node : RefreshNode F) (ended : Ended)
      → Settles (is_aborted ended) node (finish codecs world node ended)
  unfolding finish aborted_result settle_payload misfit_result applied_result
  finish-Settles world node (Ended.aborted replay) = (refl, (refl, refl, refl, refl))
  finish-Settles world node (Ended.finished replay) =
      go (codecs.from_json (merge_patch (codecs.to_json node.payload) replay.patch))
    where
      go :
          (parsed : String ⊎ OzPayload F)
          → Settles false node (settle_payload codecs world node replay parsed)
      go (inl error) = (refl, refl, inr (refl, refl))
      go (inr merged) = (refl, refl, inl refl)

  finish_sweep-Settles :
      {R : Type 0} (probes : Probes R) (node : RefreshNode F) (sweep : Sweep)
      → Settles sweep.aborted node (finish_sweep codecs probes node sweep)
  unfolding finish_sweep aborted_result swept_result
  finish_sweep-Settles probes node sweep =
      Settles-if node sweep.aborted _ _ (refl, (refl, refl, refl, refl)) (refl, refl, inl refl)

  module _ {R : Type 0} (catalogue : List ToolDef) (is_set : String → Bool) (probes : Probes R)
      (world : World) (node : RefreshNode F) where
    -- The payload of a directory or a name holds tiles; any other node has a tool in its chain that can run.
    abbrev pub can_refresh : Bool
    can_refresh =
        if is_directory_only node.oz_type
        then elim (tiles_of node.payload) [
          | none ↦ false
          | some payload ↦ not (is_nil payload.tiles)
        ]
        else any (is_runnable catalogue is_set) node.tool_chain

    -- The cancellation of the refresh of this node: of its tiles, or of the entries of its chain.
    abbrev pub was_cancelled : Bool
    was_cancelled =
        if is_directory_only node.oz_type
        then elim (tiles_of node.payload) [
          | none ↦ false
          | some payload ↦ tiles_cancelled probes payload.tiles 0
        ]
        else chain_cancelled world (unwrap_or node.value node.edited_value)
            (handoff_from_payload node.payload) 0 (resolve_chain catalogue is_set node.tool_chain)

    refresh_tiles-Settles :
        (found : Option DirectoryPayload)
        → Answers
            (elim found [ none ↦ false | some payload ↦ not (is_nil payload.tiles) ])
            (Settles
              (elim found [ none ↦ false | some payload ↦ tiles_cancelled probes payload.tiles 0 ])
              node)
            (refresh_tiles codecs probes node found)
    unfolding refresh_tiles
    refresh_tiles-Settles none = refl
    refresh_tiles-Settles (some payload) =
        let sweep : Sweep = probe_tiles probes payload.tiles 0 in
        if-cases
          (Answers (not (is_nil payload.tiles))
            (Settles (tiles_cancelled probes payload.tiles 0) node))
          (is_nil payload.tiles) (λ e. ap not e)
          (λ e. (
            ap not e,
            subst (λ b. Settles b node (finish_sweep codecs probes node sweep))
                (probe_tiles-cancelled probes payload.tiles 0)
                (finish_sweep-Settles probes node sweep),
          ))

    chain-Settles :
        let entries : List ChainEntry = resolve_chain catalogue is_set node.tool_chain in
        Settles
          (chain_cancelled world
            (unwrap_or node.value node.edited_value)
            (handoff_from_payload node.payload)
            0
            entries)
          node
          (finish codecs world node (replay_chain codecs world node entries))
    unfolding replay_chain
    chain-Settles =
        let entries : List ChainEntry = resolve_chain catalogue is_set node.tool_chain in
        subst
          (λ b. Settles b node (finish codecs world node (replay_chain codecs world node entries)))
          (replay_entries-cancelled world (unwrap_or node.value node.edited_value)
            (handoff_from_payload node.payload) entries 0 replay_start)
          (finish-Settles world node (replay_chain codecs world node entries))

    -- A refresh is refused exactly where the payload of a directory or a name holds no tiles, or no tool
    -- of the chain of any other node can run.
    -- One that is not refused is marked as aborted exactly where the cancel signal is up before one of
    -- the tools that run, or of the tiles, or a dispatch or a probe comes back cancelled. It then leaves
    -- the node as it was and writes nothing, neither the node nor the lookups that it made. Otherwise
    -- the lookups are billed, and the node that is answered is the one that is written, or the node is
    -- left as it was and nothing is written of it.
    pub refresh_node-Settles :
        Answers can_refresh
          (Settles was_cancelled node)
          (refresh_node codecs catalogue is_set probes world (some node))
    unfolding refresh_node refresh_directory refresh_via_chain
    refresh_node-Settles =
        let can_run : any is_run (resolve_chain catalogue is_set node.tool_chain)
            ≡ any (is_runnable catalogue is_set) node.tool_chain =
          any-resolve_chain catalogue is_set node.tool_chain in
        if-all (λ able stopped result. Answers able (Settles stopped node) result)
          (is_directory_only node.oz_type) (refresh_tiles-Settles (tiles_of node.payload))
          (if-cases (Answers (any (is_runnable catalogue is_set) node.tool_chain) (Settles _ node))
            (not (any is_run (resolve_chain catalogue is_set node.tool_chain)))
            (λ e. ground (arith, e, can_run)) (λ e. (ground (arith, e, can_run), chain-Settles)))
