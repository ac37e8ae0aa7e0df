-- ===== src/Examples/Verdicts.antt =====
-- The freeze record and the verdicts on a node, on small inputs.
use ozint.Base.{String, true, false, ◌≡◌, ◌⊎◌, refl, none, some, List, [], ◌∷◌}
use ozint.Types.{OzType}
use ozint.Freeze.{FreezeRecord, Parsed, parsed, written, FreezeState, load, is_frozen, set}
use ozint.Freeze.Restart.{set-load}
use ozint.Store.Edits.{as_returned, rejected, is_rejected, EditRow, restore_row}
use ozint.Store.Edits.Verdicts.{
  Verdict, edits, rejects, restores, IsFaithful, apply_all, apply_all-IsFaithful,
  restore_row-reject_all, rejections,
}

abbrev by_voice : FreezeRecord
by_voice = record { frozen = true; changed_at = 5; source = "voice"; unreadable = none }

abbrev parse : String → Parsed
parse raw = parsed by_voice

abbrev print : FreezeRecord → String
print r = "{}"

abbrev thawed_state : FreezeState
thawed_state = record {
  path = "freeze.json";
  held = record { frozen = false; changed_at = 0; source = "startup"; unreadable = none };
}

set-load_example :
    let (update, state', file) = set parse print 5 true "voice" written thawed_state in
    (is_frozen parse print state' ≡ true)
    × (state'.held.unreadable ≡ none)
    × (((update.persist_error ≡ none) × (load parse print 9 thawed_state.path file ≡ state'))
        ⊎ ((reason : String) × (update.persist_error ≡ some reason)))
set-load_example = set-load parse print 5 9 true "voice" written thawed_state refl

abbrev key_under : OzType → String → String
key_under t raw = raw

abbrev row : EditRow
row = record {
  oz_type = some OzType.email;
  value = "a@b.org";
  preview_signal = none;
  dedup_key = "a@b.org";
  edited_value = none;
  record_status = as_returned;
  pre_reject_status = none;
}

abbrev verdicts : List Verdict
verdicts = edits 1 "c@b.org" ∷ rejects 2 ∷ edits 3 "d@b.org" ∷ restores ∷ []

apply_all-IsFaithful_example : IsFaithful "a@b.org" (apply_all key_under verdicts row)
apply_all-IsFaithful_example =
    apply_all-IsFaithful key_under "a@b.org" verdicts row
      (record { same_value = refl; status = tt; stashed = tt })

restore_row-reject_all_example :
    let away = apply_all key_under (rejections (6 ∷ 7 ∷ 9 ∷ [])) row in
    (away ≡ record row { record_status = rejected 6; pre_reject_status = some row.record_status })
    × (restore_row key_under away ≡ record row { pre_reject_status = none })
unfolding is_rejected
restore_row-reject_all_example = restore_row-reject_all key_under 6 (7 ∷ 9 ∷ []) row refl
