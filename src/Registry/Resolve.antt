-- ===== src/Registry/Resolve.antt =====
-- What `find` and `resolve` of registry.rs return.
use ozint.Base.{
  String, Bool, false, not, ◌≡◌, refl, some, List, [], ◌∷◌, map, arith, filter, All, if◌then◌else◌,
  string_eq, Option-cases, inl, inr, ap,
}
use text.Mathlib.TextEquality.{eq_iff}
use ozint.Types.{OzType}
use ozint.Outcome.{ToolOutcome, skipped_no_key, skipped_gated_unarmed}
use ozint.Registry.{
  ToolDef, find, list_for_type, first_missing, first_missing_env, is_armed, unarmed_outcome,
  resolve_tools, resolve,
}

pub find-id :
    (catalogue : List ToolDef) (id : String) {tool : ToolDef}
    → find catalogue id ≡ some tool
    → tool.id ≡ id
unfolding find
find-id [] id e = cc
find-id (t ∷ catalogue) id {tool} e =
    ground (arith, eq_iff t.id id, find-id catalogue id {tool = tool})

module _ (is_set : String → Bool) where
  -- A missing variable is one that the tool names and that is not set.
  pub record Misses (tool : ToolDef) (o : ToolOutcome) : Type 0 where
    pub env_var : String
    pub named : first_missing_env is_set tool ≡ some env_var
    pub unset : is_set env_var ≡ false
    pub outcome : o ≡ (if tool.gated then skipped_gated_unarmed env_var else skipped_no_key env_var)

  first_missing-unset :
      (vars : List String) {var : String}
      → first_missing is_set vars ≡ some var
      → is_set var ≡ false
  unfolding first_missing
  first_missing-unset [] e = cc
  first_missing-unset (v ∷ vars) {var} e = ground (arith, first_missing-unset vars {var = var})

  misses :
      (tool : ToolDef) {var : String}
      → first_missing_env is_set tool ≡ some var
      → Misses tool (unarmed_outcome tool var)
  unfolding first_missing_env unarmed_outcome
  misses tool {var} e = record {
    env_var = var;
    named = e;
    unset = first_missing-unset tool.env_vars e;
    outcome = refl;
  }

  resolve_tools-split :
      (tools : List ToolDef)
      → ((resolve_tools is_set tools).runnable ≡ filter (is_armed is_set) tools)
        × (map (λ p. p.0) (resolve_tools is_set tools).skipped
            ≡ filter (λ tool. not (is_armed is_set tool)) tools)
        × All (λ p. Misses p.0 p.1) (resolve_tools is_set tools).skipped
  unfolding resolve_tools is_armed first_missing_env
  resolve_tools-split [] = (refl, refl, tt)
  resolve_tools-split (tool ∷ tools) =
      let ih = resolve_tools-split tools in
      elim (Option-cases (first_missing_env is_set tool)) [
        | inl e ↦ rw (e, resolve_tools, is_armed) (ap (λ ts. tool ∷ ts) ih.0, ih.1, ih.2)
        | inr (var, e) ↦
            rw (e, resolve_tools, is_armed) (ih.0, ap (λ ts. tool ∷ ts) ih.1, (misses tool e, ih.2))
      ]

  -- The tools of a type are split by whether they are armed, in catalogue order, and each tool that
  -- is not names the variable it lacks, as a gated tool or as a plain one.
  pub resolve-split :
      (catalogue : List ToolDef) (t : OzType)
      → ((resolve is_set catalogue t).runnable
          ≡ filter (is_armed is_set) (list_for_type catalogue t))
        × (map (λ p. p.0) (resolve is_set catalogue t).skipped
            ≡ filter (λ tool. not (is_armed is_set tool)) (list_for_type catalogue t))
        × All (λ p. Misses p.0 p.1) (resolve is_set catalogue t).skipped
  resolve-split catalogue t = unfold resolve in resolve_tools-split (list_for_type catalogue t)
