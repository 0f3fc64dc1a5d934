-- ===== src/DeviceAcl.antt =====
-- internal/deviceacl/acl.go: the revoked device tokens, by their hashes. The set of a Go map is a list
-- without repetitions. The text of the file is a parameter (`Format`), and so is the hash.
pub mod Sets
pub mod Refinement
pub mod Tests
use homepi_mon.Common.{
  ℕ, String, len, Bool, true, false, not, ◌&&◌, ◌||◌, List, [], ◌∷◌, ◌++◌, Option, none, some,
  str_eq, text_mem, all, codes, length, ◌==◌, Result, ok, err, if◌then◌else◌,
}
use Prim.Native.String.{compare}
use Prim.Native.Nat.{Ordering}
use homepi_mon.Common.Int.{ℤ, pos}
use homepi_mon.Protocol.Ids.{in_range}
use homepi_mon.Files.{Faults, Disk, Saved, empty_path, mkdir_all, keep, attempt, write_body}

abbrev pub Acl : Type 0
Acl = List String

pub record Persisted : Type 0 where
  pub schema_version : ℤ  -- int
  pub revoked_hashes : List String

-- encoding/json on `Persisted`, and `HashToken`, which is hex(sha256(token)).
pub record Format : Type 0 where
  pub encode : Persisted → Option String
  pub decode : String → Option Persisted
  pub hash_token : String → String

abbrev pub new_acl : Acl
new_acl = []

unfoldable pub add_hash : String → Acl → Acl
add_hash hash a = if text_mem hash a then a else a ++ hash ∷ []

unfoldable pub is_revoked_hash : String → Acl → Bool
is_revoked_hash hash a = text_mem hash a

unfoldable pub is_revoked : Format → String → Acl → Bool
unfolding is_revoked_hash
is_revoked format token a = is_revoked_hash (format.hash_token token) a

unfoldable pub constant_time_contains : String → Acl → ℕ
constant_time_contains hash a = if text_mem hash a then 1 else 0

-- `Add`.
unfoldable pub add : Format → String → Acl → Acl
unfolding add_hash
add format token a = add_hash (format.hash_token token) a

abbrev not_after : String → String → Bool
not_after a b = elim (compare a b) [ Ordering.gt ↦ false | _ ↦ true ]

unfoldable pub insert_sorted : String → List String → List String
insert_sorted h [] = h ∷ []
insert_sorted h (x ∷ xs) =
    let rest = insert_sorted h xs in if not_after h x then h ∷ x ∷ xs else x ∷ rest

-- `Snapshot`: the hashes in order.
unfoldable pub sorted_hashes : Acl → List String
unfolding insert_sorted
sorted_hashes [] = []
sorted_hashes (h ∷ hs) = insert_sorted h (sorted_hashes hs)

abbrev hex_char : ℕ → Bool
hex_char c = in_range b'0' b'9' c || in_range b'a' b'f' c || in_range b'A' b'F' c

-- `validHash`; the test is on the text in small letters.
unfoldable pub valid_hash : String → Bool
valid_hash h = len h == 64 && all hex_char (codes h)

pub data LoadError : Type 0 where
  not_parsed malformed_hash : LoadError

unfoldable pub load_hashes : List String → Acl → Result LoadError Acl
unfolding valid_hash add_hash
load_hashes [] a = ok a
load_hashes (h ∷ hs) a =
    let rest = load_hashes hs (add_hash h a) in if valid_hash h then rest else err malformed_hash

unfoldable pub load_bytes : Option Persisted → Result LoadError Acl
unfolding load_hashes
load_bytes none = err not_parsed
load_bytes (some p) = load_hashes p.revoked_hashes new_acl

-- `Load` of a file that can be read or is missing.
unfoldable pub load_acl : Format → Option String → Result LoadError Acl
unfolding load_bytes
load_acl format none = ok new_acl
load_acl format (some bytes) = load_bytes (format.decode bytes)

-- `Save`; the sync of the directory at the end is not looked at.
unfoldable pub save : Format → Faults → String → Acl → Disk → Saved
unfolding sorted_hashes attempt write_body
save format fails path a d =
    if str_eq path ""
    then (err empty_path, d)
    else attempt fails mkdir_all keep keep
        (write_body fails
          (format.encode (record { schema_version = pos 1; revoked_hashes = sorted_hashes a })))
        d
