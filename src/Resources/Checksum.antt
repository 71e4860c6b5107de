-- ===== src/Resources/Checksum.antt =====
-- The checksum of the environment does not depend on the order in which Go ranges over the map.
pub mod Injective
use trussium_operator.Prelude.{◌≡◌, refl, sym, ap, ◌∙◌, String, List, [], ◌∷◌, is_some}
use trussium_operator.Prelude.Map.{StringMap, lookup, keys, HasUniqueKeys, contains-keys}
use trussium_operator.Prelude.Sort.{sort}
use trussium_operator.Prelude.Sort.Unique.{
  IsDistinct, contains-sort, sort-IsAscending, ascending_unique,
}
use trussium_operator.Resources.Config.{payload_of, checksum_payload, runtime_config_checksum}

keys-IsDistinct : (m : StringMap) → HasUniqueKeys m → IsDistinct (keys m)
keys-IsDistinct [] u = tt
keys-IsDistinct ((k, v) ∷ m) (new, u) = (contains-keys k m ∙ ap is_some new, keys-IsDistinct m u)

payload_of-lookup :
    (a b : StringMap) (ks : List String)
    → ((k : String) → lookup k a ≡ lookup k b)
    → payload_of a ks ≡ payload_of b ks
unfolding payload_of
payload_of-lookup a b [] same = refl
payload_of-lookup a b (k ∷ ks) same = rw (same k, payload_of-lookup a b ks same) refl

sorted_keys-lookup :
    (a b : StringMap)
    → HasUniqueKeys a
    → HasUniqueKeys b
    → ((k : String) → lookup k a ≡ lookup k b)
    → sort (keys a) ≡ sort (keys b)
sorted_keys-lookup a b ua ub same =
    ascending_unique (sort (keys a)) (sort (keys b))
      (sort-IsAscending (keys a) (keys-IsDistinct a ua))
      (sort-IsAscending (keys b) (keys-IsDistinct b ub))
      (λ k.
        contains-sort (keys a) k
        ∙ (contains-keys k a
            ∙ (ap is_some (same k) ∙ (sym (contains-keys k b) ∙ sym (contains-sort (keys b) k)))))

-- Two maps with the same entries, in whatever order each is ranged over, have the same checksum. A
-- Go map has no key twice.
pub checksum-lookup :
    (sha256_hex : String → String) (a b : StringMap)
    → HasUniqueKeys a
    → HasUniqueKeys b
    → ((k : String) → lookup k a ≡ lookup k b)
    → runtime_config_checksum sha256_hex a ≡ runtime_config_checksum sha256_hex b
unfolding runtime_config_checksum checksum_payload
checksum-lookup sha256_hex a b ua ub same = ap sha256_hex (
    ap (payload_of a) (sorted_keys-lookup a b ua ub same)
    ∙ payload_of-lookup a b (sort (keys b)) same)
