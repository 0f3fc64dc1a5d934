-- ===== src/DeviceAcl/Tests.antt =====
-- Tests of the access list, and the witness of its refinement.
use homepi_mon.Common.{
  String, ◌≡◌, refl, Bool, true, false, List, [], ◌∷◌, Option, none, some, str_eq, if◌then◌else◌,
}
use homepi_mon.Common.Int.{pos, eqb_ℤ}
use homepi_mon.Files.{Faults, rename}
use homepi_mon.DeviceAcl.{Format, Persisted, is_revoked}
use homepi_mon.DeviceAcl.Refinement.{AclCall, revoke, store, restart, Node, acl_steps, Revocations}

abbrev hash_a : String
hash_a = "aaaaaaaaaaaaaaaaaaaaaaaaaaaaaaaaaaaaaaaaaaaaaaaaaaaaaaaaaaaaaaaa"

abbrev hash_0 : String
hash_0 = "0000000000000000000000000000000000000000000000000000000000000000"

abbrev hash_token : String → String
hash_token token = if str_eq token "old" then hash_a else hash_0

abbrev persisted : List String → Persisted
persisted hashes = record { schema_version = pos 1; revoked_hashes = hashes }

abbrev encode_of : Bool → List String → Option String
encode_of true [] = some "[]"
encode_of true (h ∷ []) = if str_eq h hash_a then some "[a]" else none
encode_of _ _ = none

-- Texts for lists of none and of one of the two hashes.
abbrev encode : Persisted → Option String
encode p = encode_of (eqb_ℤ p.schema_version (pos 1)) p.revoked_hashes

abbrev decode : String → Option Persisted
decode text =
    if str_eq text "[]"
    then some (persisted [])
    else if str_eq text "[a]"
    then some (persisted (hash_a ∷ []))
    else none

abbrev format : Format
format = record { encode = encode; decode = decode; hash_token = hash_token }

abbrev rename_fails : Faults
rename_fails rename = true
rename_fails _ = false

abbrev calls : List AclCall
calls = revoke "old" ∷ store (λ _. false) ∷ revoke "new" ∷ store rename_fails ∷ restart ∷ []

abbrev node : Node
node = record { acl = []; disk = record { file = none; temp = none } }

revoked_before_restart :
    is_revoked format "old" (acl_steps format "/acl.json" calls node).acl ≡ true
unfolding is_revoked acl_steps
revoked_before_restart = refl

lost_by_the_failed_save :
    is_revoked format "new" (acl_steps format "/acl.json" calls node).acl ≡ false
unfolding is_revoked acl_steps
lost_by_the_failed_save = refl

abbrev nothing : Revocations
nothing = record { revoked = λ k. false; stored = λ k. false }
