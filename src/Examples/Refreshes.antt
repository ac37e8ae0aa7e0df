-- ===== src/Examples/Refreshes.antt =====
-- A refresh of a node whose chain has a tool that can run, one without its key and one that is gone.
use ozint.Base.{
  ℕ, String, Bool, true, false, ◌≡◌, ◌⊎◌, inl, inr, none, some, List, [], ◌∷◌, get, ◌==◌, string_eq,
  if◌then◌else◌,
}
use ozint.Base.{concat, nat_eq}
use ozint.Base.Text.{to_ascii_lowercase, decimal}
use ozint.Types.{OzType, JsonObject}
use ozint.Types.Payloads.{OzPayload, DirectoryTile}
use ozint.Outcome.{ok_with_results}
use ozint.Registry.{ToolDef, AccessTier, yield_default}
use ozint.Runtime.Layer.{DispatchOutcome}
use ozint.Refresh.{RefreshNode}
use ozint.Refresh.Chain.{World}
use ozint.Refresh.Finish.{Codecs, refresh_via_chain}
use ozint.Refresh.Kept.{IsAnswered, OfResult, Keeps, refresh_via_chain-IsAnswered}
use ozint.Fetch.{OzOutcome}
use ozint.Refresh.Tiles.{Probes, probe_tiles, refresh_node}
use ozint.Refresh.Sweeps.{Matches, probe_tiles-Matches, refresh_node-Keeps}
use ozint.Refresh.Cancelled.{Answers, can_refresh, Settles, was_cancelled, refresh_node-Settles}
use ozint.Examples.Signals.{hundredths}

abbrev tool : String → List String → ToolDef
tool id env_vars = record {
  id = id;
  label = id;
  types = OzType.username ∷ [];
  access_tier = AccessTier.free_key;
  env_vars = env_vars;
  needs_input = [];
  gated = true;
  gated_reason = none;
  cost_cents = 2;
  rate_key = id;
  ttl_secs = 60;
  licence = "";
  attribution = none;
  method = "GET";
}

abbrev catalogue : List ToolDef
catalogue = tool "github" [] ∷ tool "hibp" ("HIBP_KEY" ∷ []) ∷ []

abbrev is_set : String → Bool
is_set var = false

abbrev sites : ℕ → OzPayload ℕ
sites n =
    OzPayload.username (record { hits = []; sites_checked = n; sites_confirmed = 0; profile = [] })

abbrev sites_json : OzPayload ℕ → JsonObject
sites_json (OzPayload.username p) = ("sitesChecked", decimal p.sites_checked) ∷ []
sites_json _ = []

abbrev codecs : Codecs ℕ
codecs = record {
  floats = hundredths;
  to_lowercase = to_ascii_lowercase;
  to_json = sites_json;
  from_json = λ o. elim (get "sitesChecked" o) [
    | none ↦ inl "sitesChecked"
    | some n ↦ inr (sites (if n == "2" then 2 else 1))
  ];
  canonical = λ v. v;
}

abbrev world : Bool → World
world stop = record {
  is_cancelled = λ i. stop;
  dispatch = λ i t v h.
      DispatchOutcome.ran (ok_with_results 1)
        (some (record yield_default { payload_patch = some (("sitesChecked", "2") ∷ []) }));
  elapsed_ms = λ i. 5;
  now = 90;
}

abbrev node : RefreshNode ℕ
node = record {
  id = "n1";
  investigation_id = "i1";
  oz_type = OzType.username;
  value = "ada";
  edited_value = none;
  payload = sites 1;
  preview_signal = none;
  sections = [];
  gated = false;
  tool_chain = "hibp" ∷ "github" ∷ "gone" ∷ [];
  provenance_gated = false;
  retrieved_at = 10;
  prior_observations = [];
}

refresh_via_chain-IsAnswered_example :
    IsAnswered catalogue is_set node (refresh_via_chain codecs catalogue is_set (world false) node)
refresh_via_chain-IsAnswered_example =
    refresh_via_chain-IsAnswered codecs catalogue is_set (world false) node

-- A directory with a tile behind a login and one that is gone.
abbrev tile : String → DirectoryTile
tile id = record {
  tool_id = id;
  label = id;
  url = concat ("https://" ∷ id ∷ []);
  reason = "no API";
  live = none;
}

abbrev tiles : List DirectoryTile
tiles = tile "pipl" ∷ tile "spokeo" ∷ []

abbrev probes : Bool → Probes ℕ
probes stop = record {
  is_cancelled = λ i. stop;
  probe = λ i url. OzOutcome.http_error (if nat_eq i 0 then 403 else 404) none;
  elapsed_ms = λ i. 7;
  now = 90;
}

abbrev directory_node : RefreshNode ℕ
directory_node = record node {
  oz_type = OzType.directory;
  payload = OzPayload.directory (record { tiles = tiles });
}

probe_tiles-Matches_example :
    ((probe_tiles (probes false) tiles 0).aborted ≡ true)
    ⊎ Matches tiles (probe_tiles (probes false) tiles 0)
probe_tiles-Matches_example = probe_tiles-Matches (probes false) tiles 0

refresh_node-Keeps_example :
    OfResult
      (Keeps directory_node)
      (refresh_node codecs catalogue is_set (probes false) (world false) (some directory_node))
refresh_node-Keeps_example =
    refresh_node-Keeps codecs catalogue is_set (probes false) (world false) directory_node

refresh_node-Settles_example :
    Answers
      (can_refresh codecs catalogue is_set (probes false) (world true) node)
      (Settles (was_cancelled codecs catalogue is_set (probes false) (world true) node) node)
      (refresh_node codecs catalogue is_set (probes false) (world true) (some node))
refresh_node-Settles_example =
    refresh_node-Settles codecs catalogue is_set (probes false) (world true) node
