-- ===== src/DeviceAcl/Sets.antt =====
-- The hashes of a set before and after it is sorted, saved and loaded.
use homepi_mon.Common.{
  String, ◌≡◌, refl, sym, subst, true, ◌||◌, List, [], ◌∷◌, str_eq, text_mem, text_mem-append, all,
  all-append, Result, ok, err, arith, eq_iff, Bool-cases, inl, inr, if◌then◌else◌,
}
use homepi_mon.DeviceAcl.{
  Acl, add_hash, insert_sorted, sorted_hashes, valid_hash, load_hashes, LoadError, malformed_hash,
}

pub text_mem-add_hash :
    (k h : String) (a : Acl) → text_mem k (add_hash h a) ≡ (text_mem k a || str_eq h k)
unfolding add_hash
text_mem-add_hash k h a = elim (Bool-cases (text_mem h a)) [
  | inl e ↦ ground (arith, e, eq_iff h k)
  | inr e ↦ ground (arith, e, text_mem-append k h a)
]

text_mem-insert_sorted :
    (k h : String) (hs : List String)
    → text_mem k (insert_sorted h hs) ≡ (str_eq h k || text_mem k hs)
unfolding insert_sorted
text_mem-insert_sorted k h [] = refl
text_mem-insert_sorted k h (x ∷ xs) = ground (arith, text_mem-insert_sorted k h xs)

pub text_mem-sorted_hashes : (k : String) (a : Acl) → text_mem k (sorted_hashes a) ≡ text_mem k a
unfolding sorted_hashes
text_mem-sorted_hashes k [] = refl
text_mem-sorted_hashes k (h ∷ hs) =
    ground (arith, text_mem-insert_sorted k h (sorted_hashes hs), text_mem-sorted_hashes k hs)

-- Every hash is well formed.
unfoldable pub AreValid : List String → Type 0
unfolding valid_hash
AreValid hs = all valid_hash hs ≡ true

AreValid-insert_sorted :
    (h : String) (hs : List String)
    → valid_hash h ≡ true
    → AreValid hs
    → AreValid (insert_sorted h hs)
unfolding insert_sorted AreValid
AreValid-insert_sorted h [] v w = ground (arith, v)
AreValid-insert_sorted h (x ∷ xs) v w = ground (arith, v, w, AreValid-insert_sorted h xs v)

pub AreValid-sorted_hashes : (a : Acl) → AreValid a → AreValid (sorted_hashes a)
unfolding sorted_hashes AreValid
AreValid-sorted_hashes [] v = refl
AreValid-sorted_hashes (h ∷ hs) v =
    AreValid-insert_sorted h (sorted_hashes hs) (ground (arith, v))
      (AreValid-sorted_hashes hs (ground (arith, v)))

pub AreValid-add_hash :
    (h : String) (a : Acl) → valid_hash h ≡ true → AreValid a → AreValid (add_hash h a)
unfolding add_hash AreValid
AreValid-add_hash h a v w = ground (arith, v, w, all-append valid_hash a h)

-- What is loaded has the hashes of the file.
abbrev pub IsLoaded : List String → Acl → Result LoadError Acl → Type 0
IsLoaded hs a (ok b) = AreValid b × ((k : String) → text_mem k b ≡ (text_mem k a || text_mem k hs))
IsLoaded hs a (err e) = ⊥

IsLoaded-cons :
    (h : String) (hs : List String) (a : Acl) (r : Result LoadError Acl)
    → valid_hash h ≡ true
    → IsLoaded hs (add_hash h a) r
    → IsLoaded (h ∷ hs) a (if valid_hash h then r else err malformed_hash)
IsLoaded-cons h hs a (ok b) v (w, same) =
    subst (λ c. IsLoaded (h ∷ hs) a (if c then ok b else err malformed_hash)) (sym v)
      (w, λ k. ground (arith, same k, text_mem-add_hash k h a))
IsLoaded-cons h hs a (err e) v w = absurd w

pub load_hashes-IsLoaded :
    (hs : List String) (a : Acl) → AreValid a → AreValid hs → IsLoaded hs a (load_hashes hs a)
unfolding load_hashes AreValid
load_hashes-IsLoaded [] a v w = (v, λ k. ground arith)
load_hashes-IsLoaded (h ∷ hs) a v w =
    IsLoaded-cons h hs a (load_hashes hs (add_hash h a)) (ground (arith, w)) (
      load_hashes-IsLoaded hs (add_hash h a) (AreValid-add_hash h a (ground (arith, w)) v)
        (ground (arith, w)))
