-- ===== src/Store/Edits/Verdicts.antt =====
-- What a history of edits, rejections and restorations leaves of a node (store.rs).
use ozint.Base.{
  ℕ, String, false, ◌≡◌, List, [], ◌∷◌, unwrap_or, string_eq, if-keeps, map, true, refl, ap, ◌∙◌,
  some, none,
}
use ozint.Types.{OzType}
use ozint.Store.Edits.{
  RecordStatus, as_returned, corrected, rejected, is_rejected, EditRow, original_of, edit_row,
  reject_row, restore_row,
}

-- A correction that names what the tool returned, and nothing else.
abbrev pub KeepsOriginal : String → RecordStatus → Type 0
KeepsOriginal value as_returned = Unit
KeepsOriginal value (corrected original_value original_chip edited_at) = original_value ≡ value
KeepsOriginal value (rejected at) = Unit

-- The row still has the value that the tool returned, and so has every correction it remembers.
pub record IsFaithful (value : String) (row : EditRow) : Type 0 where
  pub same_value : row.value ≡ value
  pub status : KeepsOriginal value row.record_status
  pub stashed : KeepsOriginal value (unwrap_or as_returned row.pre_reject_status)

pub data Verdict : Type 0 where
  edits : (now : ℕ) (new_value : String) → Verdict
  rejects : (now : ℕ) → Verdict
  restores : Verdict

-- The history of a node that is rejected at each of these instants.
abbrev pub rejections : List ℕ → List Verdict
rejections instants = map rejects instants

original_of-kept :
    (value : String) (status : RecordStatus) (row : EditRow)
    → row.value ≡ value
    → KeepsOriginal value status
    → (original_of status row).0 ≡ value
unfolding original_of
original_of-kept value as_returned row e k = e
original_of-kept value (corrected original_value original_chip edited_at) row e k = k
original_of-kept value (rejected at) row e k = e

module _ (dedup_key : OzType → String → String) where
  unfoldable pub apply : Verdict → EditRow → EditRow
  apply (edits now new_value) row = edit_row dedup_key now new_value row
  apply (rejects now) row = reject_row dedup_key now row
  apply restores row = restore_row dedup_key row

  unfoldable pub apply_all : List Verdict → EditRow → EditRow
  unfolding apply
  apply_all [] row = row
  apply_all (v ∷ vs) row = apply_all vs (apply v row)

  apply-IsFaithful :
      (value : String) (v : Verdict) (row : EditRow)
      → IsFaithful value row
      → IsFaithful value (apply v row)
  unfolding apply edit_row reject_row restore_row is_rejected
  apply-IsFaithful value (edits now new_value) row h = record {
    same_value = h.same_value;
    status = original_of-kept value row.record_status row h.same_value h.status;
    stashed = h.stashed;
  }
  apply-IsFaithful value (rejects now) row h =
      if-keeps (IsFaithful value) (is_rejected row.record_status) h
        (record { same_value = h.same_value; status = tt; stashed = h.status })
  apply-IsFaithful value restores row h =
      if-keeps (IsFaithful value) (is_rejected row.record_status)
        (record { same_value = h.same_value; status = h.stashed; stashed = tt }) h

  -- From a row that holds the value its tool returned and names it as the original of its
  -- corrections, whatever the analyst does in any order, that value stays in the row, and every
  -- correction that the row carries or has stashed names it as the original.
  pub apply_all-IsFaithful :
      (value : String) (vs : List Verdict) (row : EditRow)
      → IsFaithful value row
      → IsFaithful value (apply_all vs row)
  unfolding apply_all
  apply_all-IsFaithful value [] row h = h
  apply_all-IsFaithful value (v ∷ vs) row h =
      apply_all-IsFaithful value vs (apply v row) (apply-IsFaithful value v row h)

  reject_row-rejected :
      (now : ℕ) (row : EditRow)
      → is_rejected row.record_status ≡ true
      → reject_row dedup_key now row ≡ row
  unfolding reject_row
  reject_row-rejected now row h = rw h refl

  reject_row-open :
      (now : ℕ) (row : EditRow)
      → is_rejected row.record_status ≡ false
      → reject_row dedup_key now row
        ≡ record row { record_status = rejected now; pre_reject_status = some row.record_status }
  unfolding reject_row
  reject_row-open now row h = rw h refl

  -- Rejections that follow another change nothing.
  reject_all-rejected :
      (instants : List ℕ) (row : EditRow)
      → is_rejected row.record_status ≡ true
      → apply_all (rejections instants) row ≡ row
  unfolding apply_all apply
  reject_all-rejected [] row h = refl
  reject_all-rejected (now ∷ instants) row h =
      ap (apply_all (rejections instants)) (reject_row-rejected now row h)
      ∙ reject_all-rejected instants row h

  -- A node that is not rejected, rejected once or any number of times over, is rejected as of the
  -- first time, with its value, its key and its correction as they were. Restored then, it has the
  -- status that it had before as well, with nothing left aside.
  pub restore_row-reject_all :
      (now : ℕ) (again : List ℕ) (row : EditRow)
      → is_rejected row.record_status ≡ false
      → let away = apply_all (rejections (now ∷ again)) row in
        (away
          ≡ record row { record_status = rejected now; pre_reject_status = some row.record_status })
        × (restore_row dedup_key away ≡ record row { pre_reject_status = none })
  unfolding apply_all apply restore_row is_rejected
  restore_row-reject_all now again row h =
      let kept : apply_all (rejections again) (reject_row dedup_key now row) ≡ record row {
        record_status = rejected now;
        pre_reject_status = some row.record_status;
      } =
        rw (reject_row-open now row h) (reject_all-rejected again _ refl) in
      (kept, rw kept refl)
