-- ===== src/Registry.antt =====
-- crates/ozint/src/registry.rs: tool definitions, lookup and resolution, over any catalogue. The
-- catalogue's own data is not repeated; `is_set` says whether `config::optional` has a value.
pub mod Resolve
use ozint.Base.{
  ℕ, String, Bool, true, false, not, Option, none, some, List, [], ◌∷◌, if◌then◌else◌, ◌==◌, any,
  filter, string_eq,
}
use ozint.Types.{OzType, OzRow, JsonObject, oz_type_eq}
use ozint.Outcome.{ToolOutcome, skipped_no_key, skipped_gated_unarmed}

pub data AccessTier : Type 0 where
  keyless_open free_key paid_key local_only directory_only sidecar : AccessTier

pub record ChildSeed : Type 0 where
  pub oz_type : OzType
  pub value : String
  pub note : Option String

-- `payload_patch` is `none` where the JSON is no object.
pub record ToolYield : Type 0 where
  pub payload_patch : Option JsonObject
  pub rows : List OzRow
  pub facts : List (String × ℕ)
  pub flags : List (String × Bool)
  pub values : List (String × String)
  pub children : List ChildSeed

-- `ToolYield::default()`.
abbrev pub yield_default : ToolYield
yield_default = record {
  payload_patch = some [];
  rows = [];
  facts = [];
  flags = [];
  values = [];
  children = [];
}

pub record ToolDef : Type 0 where
  pub id : String
  pub label : String
  pub types : List OzType
  pub access_tier : AccessTier
  pub env_vars : List String
  pub needs_input : List String
  pub gated : Bool
  pub gated_reason : Option String
  pub cost_cents : ℕ
  pub rate_key : String
  pub ttl_secs : ℕ
  pub licence : String
  pub attribution : Option String
  pub method : String

unfoldable pub find : List ToolDef → String → Option ToolDef
find [] id = none
find (tool ∷ catalogue) id =
    let rest = find catalogue id in if tool.id == id then some tool else rest

unfoldable pub list_for_type : List ToolDef → OzType → List ToolDef
list_for_type catalogue t = filter (λ tool. any (λ u. u == t) tool.types) catalogue

gated_of : Option ToolDef → Bool
gated_of none = false
gated_of (some tool) = tool.gated

unfoldable pub is_gated : List ToolDef → String → Bool
unfolding gated_of
is_gated catalogue id = gated_of (find catalogue id)

pub record Resolution : Type 0 where
  pub runnable : List ToolDef
  pub skipped : List (ToolDef × ToolOutcome)

unfoldable pub unarmed_outcome : ToolDef → String → ToolOutcome
unarmed_outcome tool env_var =
    if tool.gated then skipped_gated_unarmed env_var else skipped_no_key env_var

module _ (is_set : String → Bool) where
  unfoldable pub first_missing : List String → Option String
  first_missing [] = none
  first_missing (var ∷ vars) =
      let rest = first_missing vars in if is_set var then rest else some var

  unfoldable pub first_missing_env : ToolDef → Option String
  unfolding first_missing
  first_missing_env tool = first_missing tool.env_vars

  abbrev is_none {ℓ} : {A : Type ℓ} → Option A → Bool
  is_none none = true
  is_none (some a) = false

  unfoldable pub is_armed : ToolDef → Bool
  unfolding first_missing_env
  is_armed tool = is_none (first_missing_env tool)

  -- The loop of `resolve`.
  unfoldable pub resolve_tools : List ToolDef → Resolution
  unfolding first_missing_env unarmed_outcome
  resolve_tools [] = record { runnable = []; skipped = [] }
  resolve_tools (tool ∷ tools) =
      let rest = resolve_tools tools in
      elim (first_missing_env tool) [
        | none ↦ record rest { runnable = tool ∷ rest.runnable }
        | some missing ↦ record rest {
          skipped = (tool, unarmed_outcome tool missing) ∷ rest.skipped;
        }
      ]

  unfoldable pub resolve : List ToolDef → OzType → Resolution
  unfolding resolve_tools
  resolve catalogue t = resolve_tools (list_for_type catalogue t)
