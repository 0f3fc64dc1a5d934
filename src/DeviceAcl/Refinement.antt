-- ===== src/DeviceAcl/Refinement.antt =====
-- The access list with its file refines a set of hashes in memory and one in the file.
use homepi_mon.Common.{
  String, ◌⊎◌, ◌≡◌, Bool, true, false, ◌||◌, List, [], ◌∷◌, Option, none, some, str_eq, text_mem,
  Result, ok, err,
}
use homepi_mon.Files.{Faults, Disk}
use homepi_mon.DeviceAcl.{
  Acl, Format, Persisted, add, is_revoked_hash, valid_hash, load_acl, LoadError, save,
}
use homepi_mon.DeviceAcl.Sets.{AreValid}

-- A token is revoked, the list is saved, or the node starts again from the file.
pub data AclCall : Type 0 where
  revoke : String → AclCall
  store : Faults → AclCall
  restart : AclCall

pub record Node : Type 0 where
  pub acl : Acl
  pub disk : Disk

abbrev loaded : Acl → Result LoadError Acl → Acl
loaded old (ok a) = a
loaded old (err e) = old

unfoldable pub acl_step : Format → String → AclCall → Node → Node
unfolding add save load_acl
acl_step format path (revoke token) n = record n { acl = add format token n.acl }
acl_step format path (store fails) n = record n { disk = (save format fails path n.acl n.disk).1 }
acl_step format path restart n = record n { acl = loaded n.acl (load_acl format n.disk.file) }

unfoldable pub acl_steps : Format → String → List AclCall → Node → Node
unfolding acl_step
acl_steps format path [] n = n
acl_steps format path (c ∷ cs) n = acl_steps format path cs (acl_step format path c n)

-- The specification: the hashes that are revoked now, and those that will be after a restart.
pub record Revocations : Type 0 where
  pub revoked : String → Bool
  pub stored : String → Bool

abbrev pub with_hash : String → Revocations → Revocations
with_hash hash r = record r { revoked = λ k. r.revoked k || str_eq hash k }

pub data SpecStep (format : Format) : Revocations → AclCall → Revocations → Type 0 where
  revokes :
      (r : Revocations) (token : String)
      → SpecStep format r (revoke token) (with_hash (format.hash_token token) r)
  stores :
      (r : Revocations) (fails : Faults)
      → SpecStep format r (store fails) (record r { stored = r.revoked })
  stores_not : (r : Revocations) (fails : Faults) → SpecStep format r (store fails) r
  restarts : (r : Revocations) → SpecStep format r restart (record r { revoked = r.stored })

pub data SpecRun (format : Format) : Revocations → List AclCall → Revocations → Type 0 where
  stops : (r : Revocations) → SpecRun format r [] r
  steps :
      (r s t : Revocations) (c : AclCall) (cs : List AclCall)
      → SpecStep format r c s
      → SpecRun format s cs t
      → SpecRun format r (c ∷ cs) t

-- A set of hashes as the file has it.
unfoldable pub FileRefines : Format → Option String → (String → Bool) → Type 0
unfolding AreValid
FileRefines format none stored = (k : String) → stored k ≡ false
FileRefines format (some bytes) stored =
    (p : Persisted) × ((format.decode bytes ≡ some p)
      × AreValid p.revoked_hashes
      × ((k : String) → text_mem k p.revoked_hashes ≡ stored k))

-- The list in memory answers as the set of revoked hashes, and the file as the set stored.
unfoldable pub Refines : Format → Node → Revocations → Type 0
unfolding AreValid FileRefines is_revoked_hash
Refines format n r =
    AreValid n.acl
    × ((k : String) → is_revoked_hash k n.acl ≡ r.revoked k)
    × FileRefines format n.disk.file r.stored

module _ (format : Format) (path : String)
    (valid : (token : String) → valid_hash (format.hash_token token) ≡ true)
    (parses : (p : Persisted) (bytes : String)
      → format.encode p ≡ some bytes
      → format.decode bytes ≡ some p) where
  Simulates : AclCall → Node → Revocations → Type 0
  unfolding acl_step Refines
  Simulates c n r =
      (s : Revocations) × (SpecStep format r c s × Refines format (acl_step format path c n) s)

  -- The file after a save that may have failed, as the set in memory or as the set stored.
  SavedAs : Option String → Revocations → Type 0
  unfolding FileRefines
  SavedAs file r = FileRefines format file r.revoked ⊎ FileRefines format file r.stored

  -- A file that is as a set is loaded as that set.
  LoadsAs : Acl → (String → Bool) → Type 0
  unfolding AreValid is_revoked_hash
  LoadsAs a stored = AreValid a × ((k : String) → is_revoked_hash k a ≡ stored k)
