-- ===== src/Examples/Layers.antt =====
-- A layer on a domain node with three tools: one that answers, one that needs what the first found,
-- and a gated one whose key is not set.
use ozint.Base.{
  ℕ, ◌+◌, String, Bool, true, false, ◌≡◌, refl, ◌⊎◌, ◌≤◌, ◌==◌, string_eq, if◌then◌else◌, Option,
  none, some, List, [], ◌∷◌, length, get,
}
use ozint.Types.{OzType-discrete, OzType, OzNode, NodeStatus, oz_type_eq}
use ozint.Outcome.{ok_with_results}
use ozint.LayerPlan.{LayerPlan, always, reputation_flagged, all_tools}
use ozint.Registry.{ToolDef, ChildSeed, AccessTier, yield_default}
use ozint.Health.Invariant.{nil-AllSound}
use ozint.Runtime.Tree.{Codec, LayerContext, Tree, emit_child}
use ozint.Runtime.Layer.{ran, Turn, Layer}
use ozint.Runtime.Replay.{absent, rooted, split_subtree, split_subtree-ends}
use ozint.Runtime.Fire.{SoundHealth, sound_breakers, fire_layer}
use ozint.Runtime.Ending.{IsSettled}
use ozint.Runtime.Reported.{Covers}
use ozint.Visited.{check}
use ozint.Runtime.Dedup.{emit_child-once, emit_child-check}
use ozint.Runtime.Settlement.{restated, fire_layer-IsSettled, fire_layer-Covers}

abbrev tool_named : String → List String → List String → Bool → ToolDef
tool_named id env_vars needs_input gated = record {
  id = id;
  label = id;
  types = OzType.domain ∷ [];
  access_tier = AccessTier.keyless_open;
  env_vars = env_vars;
  needs_input = needs_input;
  gated = gated;
  gated_reason = none;
  cost_cents = 2;
  rate_key = id;
  ttl_secs = 60;
  licence = "CC0";
  attribution = none;
  method = "queried";
}

abbrev catalogue : List ToolDef
catalogue =
    tool_named "dns" [] [] false
    ∷ tool_named "whois" [] ("address" ∷ []) false
    ∷ tool_named "leaks" ("LEAKS_KEY" ∷ []) [] true
    ∷ []

abbrev plan : LayerPlan
plan =
    record { id = "first"; gate = always; tools = "dns" ∷ "leaks" ∷ [] }
    ∷ record { id = "second"; gate = always; tools = "whois" ∷ "gone" ∷ [] }
    ∷ record { id = "third"; gate = reputation_flagged; tools = "abuse" ∷ [] }
    ∷ []

abbrev codec : Codec
codec = record {
  normalize = λ t raw. record { display = raw; key = raw };
  type_kebab = λ t. if t == OzType.ip then "ip" else "other";
  to_string = λ n. "n";
  uuid = λ n. "uuid";
  empty_for = λ t. [];
  retype = some;
}

abbrev ctx : LayerContext
ctx = record {
  layer_id = "layer";
  investigation_id = "inv";
  parent_node_id = "root";
  parent_depth = 0;
  oz_type = OzType.domain;
  has_scheduler = true;
}

abbrev address_seed : ChildSeed
address_seed = record { oz_type = OzType.ip; value = "192.0.2.1"; note = none }

-- Every dispatch answers with the address.
abbrev answer : Turn
answer = record {
  is_cancelled = false;
  now = 1000;
  refusal = none;
  dispatched = ran (ok_with_results 1) (
      some (record yield_default {
        payload_patch = some (("a", "192.0.2.1") ∷ []);
        values = ("address", "192.0.2.1") ∷ [];
        children = address_seed ∷ address_seed ∷ [];
      }));
  elapsed_ms = 7;
  failure = λ node. none;
}

abbrev node_at : String → Option String → ℕ → OzNode
node_at id parent_id ordinal = record {
  id = id;
  investigation_id = "inv";
  parent_id = parent_id;
  layer_id = none;
  ordinal = ordinal;
  depth = 0;
  oz_type = OzType.domain;
  value = id;
  display = id;
  dedup_key = id;
  payload = [];
  sections = [];
  gated = false;
  status = NodeStatus.running;
  provenance = record {
    found_via_parent_id = none;
    source_tool_id = "seed";
    method = "given";
    retrieved_at = 0;
    tool_chain = [];
    gated = false;
  };
  already_in_tree = none;
  corroborations = [];
}

-- Two nodes that are each other's parent hang beside the root's child.
abbrev stored : List OzNode
stored =
    node_at "root" none 0
    ∷ node_at "child" (some "root") 0
    ∷ node_at "x" (some "y") 0
    ∷ node_at "y" (some "x") 0
    ∷ []

abbrev tree : Tree
tree = record { visited = []; nodes = ("root", node_at "root" none 0) ∷ []; minted = 0 }

abbrev health : SoundHealth
health = record { table = []; sound = nil-AllSound }

abbrev unset : String → Bool
unset name = false

abbrev world : ℕ → Turn
world n = answer

abbrev fired : Option (Layer SoundHealth)
fired = fire_layer sound_breakers catalogue unset codec ctx world plan health tree (some stored)

fire_layer-IsSettled_example :
    (l : Layer SoundHealth) × (fired ≡ some l)
    × IsSettled "layer"
        (restated sound_breakers catalogue unset codec ctx world plan health tree (some stored))
        l
fire_layer-IsSettled_example =
    fire_layer-IsSettled sound_breakers catalogue unset codec ctx world plan health tree
      (some stored)

fire_layer-Covers_example :
    (l : Layer SoundHealth) × (fired ≡ some l)
    × ((l.aborted ≡ true) ⊎ Covers (all_tools plan) l.reports)
fire_layer-Covers_example =
    fire_layer-Covers sound_breakers catalogue unset codec ctx world plan health tree (some stored)

split_subtree-ends_example :
    (split_subtree (length stored + 2) stored "x" ≡ absent)
    ⊎ ((root : OzNode) × (found : List OzNode) × (split_subtree (length stored + 2) stored "x"
          ≡ rooted root (some found))
        × (length found ≤ length stored))
split_subtree-ends_example = split_subtree-ends stored "x"

abbrev dns : ToolDef
dns = tool_named "dns" [] [] false

abbrev works : OzNode → Option String
works node = none

emit_child-once_example :
    ((emit_child codec ctx dns address_seed 2000 works
        (emit_child codec ctx dns address_seed 1000 works tree).2).0
      ≡ false)
    × ((emit_child codec ctx dns address_seed 2000 works
          (emit_child codec ctx dns address_seed 1000 works tree).2).2.minted
        ≡ (emit_child codec ctx dns address_seed 1000 works tree).2.minted)
emit_child-once_example =
    emit_child-once codec ctx dns dns address_seed address_seed 1000 2000 works works tree refl refl
      refl

abbrev whois : ToolDef
whois = tool_named "whois" [] ("address" ∷ []) false

abbrev known_tree : Tree
known_tree = record {
  visited = ((OzType.ip, "ip:a"), record { node_id = "n1"; depth = 1; layer_id = none }) ∷ [];
  nodes = [];
  minted = 3;
}

emit_child-check_example :
    check OzType.ip "ip:a" (emit_child codec ctx dns address_seed 1000 works known_tree).2.visited
    ≡ some (record { node_id = "n1"; depth = 1; layer_id = none })
unfolding check get OzType-discrete
emit_child-check_example =
    emit_child-check codec ctx OzType.ip "ip:a" dns address_seed 1000 works known_tree refl
