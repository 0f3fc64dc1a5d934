-- ===== src/CommandBus/Open.antt =====
-- `Open` of internal/commandbus/bus.go: the start of the bus from its state file.
use homepi_mon.Common.{
  ◌+◌, ◌≡◌, String, Bool, true, not, List, [], ◌∷◌, arith, ltb, str_eq, length, if◌then◌else◌,
  Result, ok, err,
}
use homepi_mon.CommandBus.Entries.{Entry, max_pending, max_results, pending_count, finals_count}
use homepi_mon.CommandBus.Counts.{total}
use homepi_mon.CommandBus.Bounds.{IsBounded}
use homepi_mon.CommandBus.{Bus, StateFile}

-- What the path holds: no file, one that cannot be read, one that is no JSON state, or a state.
pub data StoredFile : Type 0 where
  absent unreadable corrupt : StoredFile
  holds : StateFile → StoredFile

-- Which of the operations on the file system succeed.
pub record FileSystem : Type 0 where
  pub makes_dir : Bool
  pub protects_dir : Bool
  pub protects_file : Bool
  pub renames : Bool
  pub persists : Bool

pub data OpenError : Type 0 where
  no_path no_dir dir_not_protected not_quarantined not_written file_not_protected : OpenError
  not_read : OpenError

abbrev pub empty_state : StateFile
empty_state = record { sequence = 0; entries = [] }

abbrev pub bus_of : StateFile → Bus
bus_of s = record { state = s; disk = s; notify = [] }

-- An empty state is written to the file.
abbrev pub start_empty : FileSystem → Result OpenError Bus
start_empty fs = if fs.persists then ok (bus_of empty_state) else err not_written

-- A file that cannot be used is moved aside first.
abbrev pub quarantine : FileSystem → Result OpenError Bus
quarantine fs = if fs.renames then start_empty fs else err not_quarantined

unfoldable pub load : FileSystem → StoredFile → Result OpenError Bus
load fs absent = start_empty fs
load fs unreadable = err not_read
load fs corrupt = quarantine fs
load fs (holds s) =
    if ltb (max_pending + max_results) (length s.entries)
    then quarantine fs
    else if fs.protects_file
    then ok (bus_of s)
    else err file_not_protected

unfoldable pub open_bus : FileSystem → String → StoredFile → Result OpenError Bus
unfolding load
open_bus fs path stored =
    if str_eq path ""
    then err no_path
    else if not fs.makes_dir
    then err no_dir
    else if not fs.protects_dir
    then err dir_not_protected
    else load fs stored

length-total : (es : List Entry) → length es ≡ total es
unfolding pending_count finals_count
length-total [] = omega arith
length-total (e ∷ es) = ground (arith, length-total es)

-- A bounded state that the file holds is the state after a start, and is not quarantined.
pub load-holds :
    (fs : FileSystem) (s : StateFile)
    → IsBounded s
    → fs.protects_file ≡ true
    → load fs (holds s) ≡ ok (bus_of s)
unfolding load
load-holds fs s v p = ground (arith, length-total s.entries, v.stored)
