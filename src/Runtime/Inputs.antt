-- ===== src/Runtime/Inputs.antt =====
-- Which tools a phase refuses for want of an input (`missing_input_for` of
-- crates/ozint/src/runtime.rs).
use ozint.Base.{
  String, true, ◌≡◌, ◌↔◌, refl, none, List, [], ◌∷◌, is_some, string_eq, All, Bool-cases, inl, inr,
}
use ozint.LayerPlan.{PhaseAcc, acc_default, handoff, value}
use ozint.LayerPlan.Handoff.{Publication, publish_all, get-handoff}
use ozint.Registry.{ToolDef}
use ozint.Runtime.{missing_key, missing_input_for}

abbrev pub AllReadable : PhaseAcc → List String → Type 0
AllReadable acc = All (λ key. is_some (value acc key) ≡ true)

missing_key-none_iff :
    (ps : List Publication) (keys : List String)
    → let acc = publish_all ps acc_default in
      (missing_key keys (handoff acc) acc ≡ none) ↔ AllReadable acc keys
unfolding missing_key
missing_key-none_iff ps [] = (λ _. tt, λ _. refl)
missing_key-none_iff ps (key ∷ keys) =
    let acc = publish_all ps acc_default in
    let rest = missing_key-none_iff ps keys in
    elim (Bool-cases (is_some (value acc key))) [
      | inl e ↦ rw (get-handoff key ps, e) (λ m. (refl, rest.0 m), λ h. rest.1 h.1)
      | inr e ↦ rw (get-handoff key ps, e) (λ m. cc, λ h. cc (h.0))
    ]

-- Whatever the earlier phases published, a tool is let through exactly when every input that it
-- needs was published and no two tools disagree on it.
pub missing_input_for-none_iff :
    (tool : ToolDef) (ps : List Publication)
    → let acc = publish_all ps acc_default in
      (missing_input_for tool (handoff acc) acc ≡ none) ↔ AllReadable acc tool.needs_input
unfolding missing_input_for
missing_input_for-none_iff tool ps = missing_key-none_iff ps tool.needs_input
