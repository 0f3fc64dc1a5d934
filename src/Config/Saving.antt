-- ===== src/Config/Saving.antt =====
-- What `Save` of internal/config/config.go leaves in the file.
use homepi_mon.Common.{String, str_eq, inl, inr, Bool-cases, arith}
use homepi_mon.Files.{Faults, Disk, mkdir_all, attempt}
use homepi_mon.Files.Atomic.{Holds, write_body-Holds}
use homepi_mon.Config.{Config, Json, with_schema, save}

pub save-Holds :
    (json : Json) (fails : Faults) (path : String) (c : Config) (d : Disk)
    → Holds (json.encode (with_schema c)) d (save json fails path c d)
unfolding save attempt
save-Holds json fails path c d =
    let below = write_body-Holds fails (json.encode (with_schema c)) d in
    elim (Bool-cases (str_eq path "")) [
      | inl e ↦ ground arith
      | inr e ↦ elim (Bool-cases (fails mkdir_all)) [
        | inl f ↦ ground arith
        | inr f ↦ ground (arith, below)
      ]
    ]
