-- ===== src/Freeze.antt =====
-- crates/ozint-core/src/safety/freeze.rs: the server's freeze record and the file that backs it.
-- Instants are milliseconds. `parse` and `print` are serde's; what a failed write leaves in the file
-- is the disk's to say. `in_memory`, a state with no file, is for tests alone.
pub mod Restart
use ozint.Base.{ℕ, String, Bool, true, false, Option, none, some, List, [], ◌∷◌, concat}

pub record FreezeRecord : Type 0 where
  pub frozen : Bool
  pub changed_at : ℕ
  pub source : String
  pub unreadable : Option String

unfoldable pub thawed : ℕ → String → FreezeRecord
thawed now source = record { frozen = false; changed_at = now; source = source; unreadable = none }

unfoldable pub fail_closed : ℕ → String → FreezeRecord
fail_closed now reason = record {
  frozen = true;
  changed_at = now;
  source = "startup";
  unreadable = some reason;
}

-- What is under the path of the record.
pub data File : Type 0 where
  not_found : File
  failing : (err : String) → File
  holding : (raw : String) → File

pub data Parsed : Type 0 where
  parsed : (record_ : FreezeRecord) → Parsed
  invalid : (err : String) → Parsed

-- What a write did: it went through, or it failed and left this in place.
pub data Written : Type 0 where
  written : Written
  failed : (reason : String) (left : File) → Written

pub record FreezeState : Type 0 where
  pub path : String
  pub held : FreezeRecord

pub record FreezeUpdate : Type 0 where
  pub applied : FreezeRecord
  pub persist_error : Option String

module _ (parse : String → Parsed) (print : FreezeRecord → String) where
  of_raw : ℕ → String → Parsed → FreezeRecord
  unfolding fail_closed
  of_raw now path (parsed r) = r
  of_raw now path (invalid err) =
      fail_closed now (concat (path ∷ " is not a valid freeze record: " ∷ err ∷ []))

  unfoldable pub read_record : ℕ → String → File → FreezeRecord
  unfolding of_raw thawed fail_closed
  read_record now path (holding raw) = of_raw now path (parse raw)
  read_record now path not_found = thawed now "startup"
  read_record now path (failing err) =
      fail_closed now (concat (path ∷ " could not be read: " ∷ err ∷ []))

  unfoldable pub load : ℕ → String → File → FreezeState
  unfolding read_record
  load now path file = record { path = path; held = read_record now path file }

  unfoldable pub is_frozen : FreezeState → Bool
  is_frozen state = state.held.frozen

  -- `write_record`: the error, and what the file holds after it.
  unfoldable pub write_record : FreezeRecord → Written → Option String × File
  write_record r written = (none, holding (print r))
  write_record r (failed reason left) = (some reason, left)

  unfoldable pub set : ℕ → Bool → String → Written → FreezeState → FreezeUpdate × FreezeState × File
  unfolding write_record
  set now frozen source answer state =
      let r : FreezeRecord = record {
        frozen = frozen;
        changed_at = now;
        source = source;
        unreadable = none;
      } in
      let (persist_error, file) = write_record r answer in
      (record { applied = r; persist_error = persist_error }, record state { held = r }, file)
