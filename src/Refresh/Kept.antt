-- ===== src/Refresh/Kept.antt =====
-- What a refresh answers, and what it leaves of a node (`refresh_via_chain` of
-- crates/ozint/src/refresh.rs).
use ozint.Base.{
  ℕ, String, Bool, true, false, ◌≡◌, ◌⊎◌, refl, subst, ◌∙◌, not, ◌||◌, arith, inl, inr, ◌==◌,
  string_eq, if◌then◌else◌, if-cases, if-keeps, Option, none, some, List, [], ◌∷◌, ◌++◌, any, All,
  unwrap_or, All-map, AllSome, ==_iff,
}
use ozint.Types.Payloads.{OzPayload}
use ozint.Registry.{ToolDef, find, is_armed}
use ozint.Runtime.{has_report, merge_patch}
use ozint.Refresh.{
  ChainEntry, RefreshNode, RefreshResult, Refreshed, PriorObservation, resolve_chain, entry_of,
  is_run, changed_fields, handoff_from_payload,
}
use ozint.Refresh.Chain.{World, Replay, replay_start, Ended, entry_id}
use ozint.Refresh.Finish.{
  Codecs, finish, settle_payload, replay_chain, aborted_result, misfit_result, applied_result,
  applied_node, move_payload, push_prior_observation, refresh_via_chain,
}
use ozint.Refresh.Reports.{reports_of, replay_entries-Covers, has_report-append}

found-id :
    (catalogue : List ToolDef) (id : String)
    → AllSome (λ (tool : ToolDef). tool.id ≡ id) (find catalogue id)
unfolding find
found-id [] id = tt
found-id (tool ∷ catalogue) id =
    if-cases (AllSome (λ (t : ToolDef). t.id ≡ id)) (tool.id == id) (λ e. (==_iff tool.id id).0 e)
      (λ e. found-id catalogue id)

module _ (catalogue : List ToolDef) (is_set : String → Bool) where
  -- The catalogue has the tool, and its keys are set.
  abbrev pub is_runnable : String → Bool
  is_runnable id = elim (find catalogue id) [ none ↦ false | some tool ↦ is_armed is_set tool ]

  entry_of-run :
      (id : String) (found : Option ToolDef)
      → is_run (entry_of catalogue is_set id found)
        ≡ elim found [ none ↦ false | some tool ↦ is_armed is_set tool ]
  unfolding entry_of
  entry_of-run id none = refl
  entry_of-run id (some tool) = ground arith

  pub any-resolve_chain :
      (chain : List String)
      → any is_run (resolve_chain catalogue is_set chain) ≡ any is_runnable chain
  unfolding resolve_chain
  any-resolve_chain [] = refl
  any-resolve_chain (id ∷ chain) =
      ground (arith, any-resolve_chain chain, entry_of-run id (find catalogue id))

  entry_id-entry_of :
      (id : String) (found : Option ToolDef)
      → AllSome (λ (tool : ToolDef). tool.id ≡ id) found
      → entry_id (entry_of catalogue is_set id found) ≡ id
  unfolding entry_of entry_id
  entry_id-entry_of id none h = refl
  entry_id-entry_of id (some tool) h =
      if-keeps (λ entry. entry_id entry ≡ id) (is_armed is_set tool) h h

  -- What holds of the ids of the entries holds of the chain.
  All-resolve_chain :
      (P : String → Type 0) (chain : List String)
      → All (λ (entry : ChainEntry). P (entry_id entry)) (resolve_chain catalogue is_set chain)
      → All P chain
  unfolding resolve_chain
  All-resolve_chain P [] h = tt
  All-resolve_chain P (id ∷ chain) h = (
    subst P (entry_id-entry_of id (find catalogue id) (found-id catalogue id)) h.0,
    All-resolve_chain P chain h.1,
  )

module _ {F : Type 0} where
  -- The two ways in which a refresh answers.
  abbrev pub IsAnswered : List ToolDef → (String → Bool) → RefreshNode F → Refreshed F → Type 0
  IsAnswered catalogue is_set node (Refreshed.refused error) =
      any (is_runnable catalogue is_set) node.tool_chain ≡ false
  IsAnswered catalogue is_set node (Refreshed.refreshed result) =
      (any (is_runnable catalogue is_set) node.tool_chain ≡ true)
      × All (λ (id : String). has_report id result.reports ≡ true) node.tool_chain

module _ {F : Type 0} (codecs : Codecs F) where
  settle_payload-kept :
      (world : World) (node : RefreshNode F) (replay : Replay) (parsed : String ⊎ OzPayload F)
      (id : String)
      → has_report id replay.reports ≡ true
      → has_report id (settle_payload codecs world node replay parsed).reports ≡ true
  unfolding settle_payload misfit_result applied_result
  settle_payload-kept world node replay (inl error) id h =
      has_report-append id replay.reports _ ∙ rw h refl
  settle_payload-kept world node replay (inr merged) id h = h

  finish-kept :
      (world : World) (node : RefreshNode F) (ended : Ended) (id : String)
      → has_report id (reports_of ended) ≡ true
      → has_report id (finish codecs world node ended).reports ≡ true
  unfolding finish aborted_result
  finish-kept world node (Ended.aborted replay) id h = h
  finish-kept world node (Ended.finished replay) id h = settle_payload-kept world node replay _ id h

  module _ (catalogue : List ToolDef) (is_set : String → Bool) where
    chain_reported :
        (world : World) (node : RefreshNode F)
        → let entries : List ChainEntry = resolve_chain catalogue is_set node.tool_chain in
          All
            (λ (id : String).
              has_report id
                (finish codecs world node (replay_chain codecs world node entries)).reports
              ≡ true)
            node.tool_chain
    unfolding replay_chain
    chain_reported world node =
        let entries : List ChainEntry = resolve_chain catalogue is_set node.tool_chain in
        let ended : Ended = replay_chain codecs world node entries in
        All-resolve_chain catalogue is_set
          (λ (id : String). has_report id (finish codecs world node ended).reports ≡ true)
          node.tool_chain
          (All-map (λ (entry : ChainEntry). has_report (entry_id entry) (reports_of ended) ≡ true)
            (λ (entry : ChainEntry).
              has_report (entry_id entry) (finish codecs world node ended).reports ≡ true)
            (λ entry h. finish-kept world node ended (entry_id entry) h) entries
            (replay_entries-Covers world (unwrap_or node.value node.edited_value)
              (handoff_from_payload node.payload) entries 0 replay_start))

    -- A refresh is refused exactly when no tool of the chain is in the catalogue with its keys set.
    -- Otherwise every tool of the chain is reported, also when the refresh is cancelled.
    pub refresh_via_chain-IsAnswered :
        (world : World) (node : RefreshNode F)
        → IsAnswered catalogue is_set node (refresh_via_chain codecs catalogue is_set world node)
    unfolding refresh_via_chain
    refresh_via_chain-IsAnswered world node =
        if-cases (IsAnswered catalogue is_set node)
          (not (any is_run (resolve_chain catalogue is_set node.tool_chain)))
          (λ e. ground (arith, e, any-resolve_chain catalogue is_set node.tool_chain))
          (λ e. (
            ground (arith, e, any-resolve_chain catalogue is_set node.tool_chain),
            chain_reported world node,
          ))

-- What a refresh may not change of a node, and when it records what was there before.
module _ {F : Type 0} where
  abbrev pub observation : RefreshNode F → PriorObservation F
  observation node = record {
    value = node.value;
    chip = node.preview_signal;
    observed_at = node.retrieved_at;
  }

  abbrev pub Keeps : RefreshNode F → RefreshResult F → Type 0
  Keeps node result =
      (result.node.id ≡ node.id)
      × (result.node.value ≡ node.value)
      × (result.node.edited_value ≡ node.edited_value)
      × (result.node.tool_chain ≡ node.tool_chain)
      × ((node.gated || result.node.gated) ≡ result.node.gated)
      × (result.node.payload ≡ (if result.changed then result.node.payload else node.payload))
      × (result.node.prior_observations ≡ (
          if result.changed
          then node.prior_observations ++ (observation node ∷ [])
          else node.prior_observations))

  -- A result that was cancelled, and the node as it was with nothing written.
  abbrev pub IsUntouched : RefreshNode F → RefreshResult F → Type 0
  IsUntouched node result =
      (result.node ≡ node)
      × (result.changed ≡ false)
      × (result.persisted ≡ none)
      × (result.billed ≡ none)

  -- A property of the result, where there is one.
  abbrev pub OfResult : (RefreshResult F → Type 0) → Refreshed F → Type 0
  OfResult P (Refreshed.refused error) = Unit
  OfResult P (Refreshed.refreshed result) = P result

module _ {F : Type 0} (codecs : Codecs F) where
  applied_result-Keeps :
      (now : ℕ) (replay : Replay) (merged : OzPayload F) (fields : List String)
      (node : RefreshNode F)
      → Keeps node (applied_result codecs now replay merged fields node)
  unfolding applied_result applied_node move_payload push_prior_observation
  applied_result-Keeps now replay merged [] node =
      (refl, refl, refl, refl, ground arith, refl, refl)
  applied_result-Keeps now replay merged (f ∷ fs) node =
      (refl, refl, refl, refl, ground arith, refl, refl)

  finish-Keeps :
      (world : World) (node : RefreshNode F) (ended : Ended)
      → Keeps node (finish codecs world node ended)
  unfolding finish aborted_result settle_payload misfit_result
  finish-Keeps world node (Ended.aborted replay) =
      (refl, refl, refl, refl, ground arith, refl, refl)
  finish-Keeps world node (Ended.finished replay) =
      go (codecs.from_json (merge_patch (codecs.to_json node.payload) replay.patch))
    where
      go :
          (parsed : String ⊎ OzPayload F)
          → Keeps node (settle_payload codecs world node replay parsed)
      go (inl error) = (refl, refl, refl, refl, ground arith, refl, refl)
      go (inr merged) =
          applied_result-Keeps world.now replay merged
            (changed_fields codecs.canonical (codecs.to_json node.payload) (codecs.to_json merged))
            node

  module _ (catalogue : List ToolDef) (is_set : String → Bool) (world : World)
      (node : RefreshNode F) where
    -- A replay that is not refused keeps the identity, the value, the analyst's correction and the chain of a node, and
    -- never clears its gated mark. The payload moves only with a result that is marked as changed, and
    -- then, and only then, the earlier observation is added to those the node has.
    pub refresh_via_chain-Keeps :
        OfResult (Keeps node) (refresh_via_chain codecs catalogue is_set world node)
    unfolding refresh_via_chain
    refresh_via_chain-Keeps =
        if-keeps (OfResult (Keeps node))
          (not (any is_run (resolve_chain catalogue is_set node.tool_chain))) tt
          (finish-Keeps world node
            (replay_chain codecs world node (resolve_chain catalogue is_set node.tool_chain)))
