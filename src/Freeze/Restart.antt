-- ===== src/Freeze/Restart.antt =====
-- What a restart makes of the freeze record (freeze.rs).
use ozint.Base.{ℕ, String, Bool, false, ◌≡◌, ◌↔◌, ◌⊎◌, inl, inr, refl, none, some}
use ozint.Freeze.{
  FreezeRecord, File, not_found, failing, holding, Parsed, parsed, invalid, Written, written,
  failed, FreezeState, thawed, fail_closed, read_record, load, is_frozen, write_record, set, of_raw,
}

-- The file holds a record that says not frozen.
abbrev pub SaysThawed : (String → Parsed) → File → Type 0
SaysThawed parse not_found = ⊥
SaysThawed parse (failing err) = ⊥
SaysThawed parse (holding raw) = (r : FreezeRecord) × (parse raw ≡ parsed r) × (r.frozen ≡ false)

module _ (parse : String → Parsed) (print : FreezeRecord → String) where
  -- A process starts thawed in two cases only: there is no file, or the file can be read and says
  -- so. Whatever else is found, it starts frozen.
  pub thawed_iff :
      (now : ℕ) (path : String) (file : File)
      → (is_frozen parse print (load parse print now path file) ≡ false)
        ↔ ((file ≡ not_found) ⊎ SaysThawed parse file)
  unfolding is_frozen load read_record of_raw thawed fail_closed
  thawed_iff now path not_found = (λ _. inl refl, λ _. refl)
  thawed_iff now path (failing err) = (λ e. cc, elim [ inl e ↦ cc | inr s ↦ absurd s ])
  thawed_iff now path (holding raw) =
      (forth (parse raw) refl, elim [ inl e ↦ cc | inr (r, e, f) ↦ rw (e, of_raw) f ])
    where
      forth :
          (p : Parsed)
          → parse raw ≡ p
          → (of_raw parse print now path (parse raw)).frozen ≡ false
          → (holding raw ≡ not_found) ⊎ SaysThawed parse (holding raw)
      forth (parsed r) e f = inr (r, e, rw (e, of_raw) at f)
      forth (invalid err) e f = let broken = rw (e, of_raw) at f in cc

  abbrev pub asked : ℕ → Bool → String → FreezeRecord
  asked now frozen source = record {
    frozen = frozen;
    changed_at = now;
    source = source;
    unreadable = none;
  }

  -- A change that was written survives a restart: given that serde reads back the record it wrote,
  -- a process that starts on the file holds the state that the change left, its unreadable mark
  -- cleared. A change whose write failed is in force all the same, and is returned with its error.
  pub set-load :
      (now later : ℕ) (frozen : Bool) (source : String) (answer : Written) (state : FreezeState)
      → parse (print (asked now frozen source)) ≡ parsed (asked now frozen source)
      → let (update, state', file) = set parse print now frozen source answer state in
        (is_frozen parse print state' ≡ frozen)
        × (state'.held.unreadable ≡ none)
        × (((update.persist_error ≡ none) × (load parse print later state.path file ≡ state'))
            ⊎ ((reason : String) × (update.persist_error ≡ some reason)))
  unfolding set write_record is_frozen load read_record of_raw
  set-load now later frozen source (failed reason left) state back =
      (refl, refl, inr (reason, refl))
  set-load now later frozen source written state back = (refl, refl, inl (refl, rw back refl))
