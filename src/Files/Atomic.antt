-- ===== src/Files/Atomic.antt =====
-- What a replacement of a file leaves, whichever calls fail.
use homepi_mon.Common.{String, true, ◌≡◌, ◌⊎◌, none, some, Option, is_some, ok, err, arith}
use homepi_mon.Files.{
  Faults, Disk, Saved, attempt, cleanup, end_saving, replace, sync_directory, atomic_write,
  write_body,
}

-- The file is the whole body, with no temporary file left, or the file is as it was.
abbrev pub IsReplaced : String → Disk → Saved → Type 0
IsReplaced body d (ok u, d') = (d'.file ≡ some body) × (d'.temp ≡ none)
IsReplaced body d (err e, d') = d'.file ≡ d.file

pub replace-IsReplaced :
    (fails : Faults) (body : String) (d : Disk)
    → IsReplaced body d (replace fails body end_saving d)
unfolding replace attempt cleanup end_saving
replace-IsReplaced fails body d = ground arith

-- A failure of `atomicWrite` can come after the renaming.
abbrev pub IsWritten : String → Disk → Saved → Type 0
IsWritten body d (ok u, d') = (d'.file ≡ some body) × (d'.temp ≡ none)
IsWritten body d (err e, d') = (d'.file ≡ d.file) ⊎ (d'.file ≡ some body)

pub atomic_write-IsWritten :
    (fails : Faults) (body : String) (d : Disk) → IsWritten body d (atomic_write fails body d)
unfolding atomic_write replace attempt cleanup end_saving sync_directory
atomic_write-IsWritten fails body d = ground arith

-- There is a text and the file holds it, or the file is as it was.
abbrev pub Holds : Option String → Disk → Saved → Type 0
Holds text d (ok u, d') = (d'.file ≡ text) × (is_some text ≡ true)
Holds text d (err e, d') = d'.file ≡ d.file

pub write_body-Holds :
    (fails : Faults) (text : Option String) (d : Disk) → Holds text d (write_body fails text d)
unfolding write_body replace attempt cleanup end_saving
write_body-Holds fails none d = λ i. d.file
write_body-Holds fails (some body) d = ground arith
