-- ===== src/LayerPlan/Handoff.antt =====
-- What a later phase may read of the values that earlier tools published (`set_value`, `value`,
-- `value_status` and `handoff` of layer_plan.rs).
use ozint.Base.{
  String, ◌≡◌, ◌≢◌, ◌↔◌, inl, inr, refl, Option, none, some, List, [], ◌∷◌, arith, get, get-insert,
  HasUniqueKeys, insert-HasUniqueKeys, string_eq, ◌==◌, if◌then◌else◌, All, Map, Bool-cases, ap,
  ◌∙◌, eq_self,
}
use text.Mathlib.TextEquality.{eq_iff}
use ozint.LayerPlan.{
  HandoffValue, PhaseAcc, acc_default, ValueStatus, absent, ready, disputed, publish, set_value,
  status_of, value_status, value, snapshot, handoff, readable,
}

-- One publication: the key, the value, and the tool it is from.
abbrev pub Publication : Type 0
Publication = String × String × String

unfoldable pub publish_all : List Publication → PhaseAcc → PhaseAcc
publish_all [] acc = acc
publish_all ((key, v, from) ∷ ps) acc = publish_all ps (set_value key v from acc)

-- The publications under one key, as pairs of a tool and its value.
unfoldable pub under : String → List Publication → List (String × String)
under key [] = []
under key ((k, v, from) ∷ ps) =
    let rest = under key ps in if k == key then (from, v) ∷ rest else rest

-- The first of the pairs whose value differs.
unfoldable pub first_other : String → List (String × String) → Option (String × String)
first_other v [] = none
first_other v ((from, w) ∷ ps) = if v == w then first_other v ps else some (from, w)

-- The status by the publications alone: the first one, and the first that disagrees with it.
unfoldable pub published_status : List (String × String) → ValueStatus
unfolding first_other
published_status [] = absent
published_status ((from, v) ∷ ps) = elim (first_other v ps) [
  | none ↦ ready v from
  | some other ↦ disputed (from, v) other
]

-- The record that the publications leave under their key.
held_by : Option HandoffValue → List (String × String) → Option HandoffValue
held_by o [] = o
held_by o ((from, v) ∷ ps) = held_by (some (publish o v from)) ps

get-set_value :
    (k key v from : String) (acc : PhaseAcc)
    → get key (set_value k v from acc).values
      ≡ (if k == key then some (publish (get k acc.values) v from) else get key acc.values)
unfolding set_value
get-set_value k key v from acc = get-insert k key (publish (get k acc.values) v from) acc.values

get-publish_all :
    (key : String) (ps : List Publication) (acc : PhaseAcc)
    → get key (publish_all ps acc).values ≡ held_by (get key acc.values) (under key ps)
unfolding publish_all held_by under
get-publish_all key [] acc = refl
get-publish_all key ((k, v, from) ∷ ps) acc = elim (Bool-cases (k == key)) [
  | inl same ↦ rw same (
      get-publish_all key ps (set_value k v from acc)
      ∙ ap (λ o. held_by o (under key ps)) (get-set_value k key v from acc)
      ∙ (rw ((eq_iff k key).0 same, eq_self key)))
  | inr other ↦ rw other (
      get-publish_all key ps (set_value k v from acc)
      ∙ ap (λ o. held_by o (under key ps)) (get-set_value k key v from acc ∙ (rw other)))
]

-- Once disputed, a key stays so, by the same pair.
status_of-disputed :
    (v from : String) (d : String × String) (ps : List (String × String))
    → status_of (held_by (some (record { value = v; from = from; disputed_by = some d })) ps)
      ≡ disputed (from, v) d
unfolding held_by publish status_of
status_of-disputed v from d [] = refl
status_of-disputed v from d ((g, w) ∷ ps) = ground (arith, status_of-disputed v from d ps)

status_of-held_by :
    (v from : String) (ps : List (String × String))
    → status_of (held_by (some (record { value = v; from = from; disputed_by = none })) ps)
      ≡ published_status ((from, v) ∷ ps)
unfolding held_by publish status_of published_status
status_of-held_by v from [] = refl
status_of-held_by v from ((g, w) ∷ ps) =
    ground (arith, status_of-disputed v from (g, w) ps, status_of-held_by v from ps)

status_of-all : (qs : List (String × String)) → status_of (held_by none qs) ≡ published_status qs
unfolding held_by publish
status_of-all [] = unfold status_of published_status in refl
status_of-all ((from, v) ∷ qs) = status_of-held_by v from qs

-- Whatever is published, the status of a key is told by what was published under it: absent, the
-- first value if all agree with it, or else the first pair and the first that disagrees with it.
pub value_status-publish_all :
    (key : String) (ps : List Publication)
    → value_status (publish_all ps acc_default) key ≡ published_status (under key ps)
unfolding value_status
value_status-publish_all key ps =
    ap status_of (get-publish_all key ps acc_default ∙ ap (λ o. held_by o (under key ps)) get-nil)
    ∙ status_of-all (under key ps)
  where
    get-nil : get key acc_default.values ≡ none
    get-nil = unfold get in refl

first_other-none_iff :
    (v : String) (qs : List (String × String)) → (first_other v qs ≡ none) ↔ All (λ p. p.1 ≡ v) qs
unfolding first_other
first_other-none_iff v [] = (λ _. tt, λ _. refl)
first_other-none_iff v ((from, w) ∷ qs) = ground (arith, eq_iff v w, first_other-none_iff v qs)

readable-published_status :
    (v : String) (qs : List (String × String))
    → (readable (published_status qs) ≡ some v) ↔ ((qs ≢ []) × All (λ p. p.1 ≡ v) qs)
unfolding published_status
readable-published_status v [] = ground arith
readable-published_status v ((from, w) ∷ qs) = (
  λ e.
      let same : w ≡ v = ground arith in
      ((λ z. cc), (same, (first_other-none_iff v qs).0 (ground arith))),
  λ h. ground (arith, (first_other-none_iff v qs).1 h.1.1),
)

-- A value is readable exactly when something was published under the key and all of it agrees: the
-- order of the publications does not matter.
pub value-eq-some_iff :
    (key v : String) (ps : List Publication)
    → (value (publish_all ps acc_default) key ≡ some v)
      ↔ ((under key ps ≢ []) × All (λ p. p.1 ≡ v) (under key ps))
unfolding value
value-eq-some_iff key v ps =
    rw (value_status-publish_all key ps) (readable-published_status v (under key ps))

get-snapshot :
    (key : String) (m : Map String HandoffValue)
    → HasUniqueKeys m
    → get key (snapshot m) ≡ readable (status_of (get key m))
unfolding get snapshot status_of
get-snapshot key [] h = refl
get-snapshot key ((k, v) ∷ m) h = ground (arith, eq_iff k key, get-snapshot key m h.1, h.0)

publish_all-HasUniqueKeys :
    (ps : List Publication) (acc : PhaseAcc)
    → HasUniqueKeys acc.values
    → HasUniqueKeys (publish_all ps acc).values
unfolding publish_all set_value
publish_all-HasUniqueKeys [] acc h = h
publish_all-HasUniqueKeys ((k, v, from) ∷ ps) acc h =
    publish_all-HasUniqueKeys ps (set_value k v from acc)
      (insert-HasUniqueKeys k (publish (get k acc.values) v from) acc.values h)

-- The frozen view that a phase gets holds exactly the readable values.
pub get-handoff :
    (key : String) (ps : List Publication)
    → get key (handoff (publish_all ps acc_default)) ≡ value (publish_all ps acc_default) key
unfolding handoff value value_status
get-handoff key ps =
    get-snapshot key (publish_all ps acc_default).values
      (publish_all-HasUniqueKeys ps acc_default tt)
