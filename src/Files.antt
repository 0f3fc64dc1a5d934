-- ===== src/Files.antt =====
-- How internal/config/config.go, internal/configtx/apply.go, internal/deviceacl/acl.go and
-- internal/snapstore/store.go replace a file: a temporary file beside it is written, synced and
-- renamed over it. A call of the file system fails or has its effect; which calls fail is an argument.
pub mod Atomic
use homepi_mon.Common.{String, Bool, Option, none, some, Result, ok, err, if◌then◌else◌}

pub data FileCall : Type 0 where
  mkdir_all create_temp write sync close chmod rename open_dir sync_dir remove : FileCall

-- Which calls fail.
abbrev pub Faults : Type 0
Faults = FileCall → Bool

-- The file at the path, and the temporary file beside it.
pub record Disk : Type 0 where
  pub file : Option String
  pub temp : Option String

pub data SaveError : Type 0 where
  empty_path marshal too_large : SaveError
  failed : FileCall → SaveError

abbrev pub Saved : Type 0
Saved = Result SaveError (Unit {0}) × Disk

-- One call: on failure what the code does before it returns, else the effect and what follows.
unfoldable pub attempt :
    Faults → FileCall → (Disk → Disk) → (Disk → Disk) → (Disk → Saved) → Disk → Saved
attempt fails call clean effect next d =
    if fails call then (err (failed call), clean d) else next (effect d)

abbrev pub keep : Disk → Disk
keep d = d

abbrev pub new_temp : Disk → Disk
new_temp d = record d { temp = some "" }

abbrev pub fill : String → Disk → Disk
fill body d = record d { temp = some body }

abbrev pub renamed : Disk → Disk
renamed d = record { file = d.temp; temp = none }

-- `os.Remove` of the temporary file, whose error is ignored.
unfoldable pub cleanup : Faults → Disk → Disk
cleanup fails d = if fails remove then d else record d { temp = none }

unfoldable pub end_saving : Disk → Saved
end_saving d = (ok tt, d)

-- The body goes to a temporary file that is synced, closed, made private and renamed. A call that
-- fails removes the temporary file.
unfoldable pub replace : Faults → String → (Disk → Saved) → Disk → Saved
unfolding attempt cleanup
replace fails body next = attempt fails create_temp keep new_temp (
    attempt fails write (cleanup fails) (fill body) (
      attempt fails sync (cleanup fails) keep (
        attempt fails close (cleanup fails) keep (
          attempt fails chmod (cleanup fails) keep
            (attempt fails rename (cleanup fails) renamed next)))))

-- `syncDir`: the errors of the open and of the sync are returned.
unfoldable pub sync_directory : Faults → Disk → Saved
unfolding attempt end_saving
sync_directory fails =
    attempt fails open_dir keep keep (attempt fails sync_dir keep keep end_saving)

-- `atomicWrite` of a rollback.
unfoldable pub atomic_write : Faults → String → Disk → Saved
unfolding attempt replace sync_directory
atomic_write fails body =
    attempt fails mkdir_all keep keep (replace fails body (sync_directory fails))

-- `json.MarshalIndent`, which fails or gives the text, and the replacement of the file by it.
unfoldable pub write_body : Faults → Option String → Disk → Saved
unfolding replace end_saving
write_body fails none d = (err marshal, d)
write_body fails (some body) d = replace fails body end_saving d
