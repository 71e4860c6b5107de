-- ===== src/Prelude/Map.antt =====
-- Go's `map[string]string`, as an association list: a write replaces the value of a key that is
-- there and adds the pair at the end otherwise. The list's order stands for the order in which Go
-- happens to range over the map.
use trussium_operator.Prelude.{
  ◌≡◌, refl, String, Option, none, some, List, [], ◌∷◌, arith, ◌==◌, eq_iff, if◌then◌else◌,
  contains, is_some,
}

abbrev pub StringMap : Type 0
StringMap = List (String × String)

unfoldable pub lookup : String → StringMap → Option String
lookup k [] = none
lookup k ((j, v) ∷ m) = if j == k then some v else lookup k m

unfoldable pub insert : String → String → StringMap → StringMap
insert k v [] = (k, v) ∷ []
insert k v ((j, w) ∷ m) = if j == k then (k, v) ∷ m else (j, w) ∷ insert k v m

abbrev pub keys : StringMap → List String
keys [] = []
keys ((k, _) ∷ m) = k ∷ keys m

-- No key stands twice.
abbrev pub HasUniqueKeys : StringMap → Type 0
HasUniqueKeys [] = Unit
HasUniqueKeys ((k, _) ∷ m) = (lookup k m ≡ none) × HasUniqueKeys m

-- After a write the key has the written value, and every other key what it had.
pub lookup-insert :
    (key wanted value : String) (map : StringMap)
    → lookup wanted (insert key value map)
      ≡ (if key == wanted then some value else lookup wanted map)
unfolding insert lookup
lookup-insert key wanted value [] = refl
lookup-insert key wanted value ((first, old) ∷ rest) = ground (
  arith,
  lookup-insert key wanted value rest,
  eq_iff first key,
  eq_iff first wanted,
  eq_iff key wanted,
)

pub insert-HasUniqueKeys :
    (k v : String) (m : StringMap) → HasUniqueKeys m → HasUniqueKeys (insert k v m)
unfolding lookup insert
insert-HasUniqueKeys k v [] u = (refl, tt)
insert-HasUniqueKeys k v ((i, w) ∷ m) u =
    ground (arith, eq_iff i k, eq_iff k i, insert-HasUniqueKeys k v m, lookup-insert k i v m)

pub contains-keys : (k : String) (m : StringMap) → contains (keys m) k ≡ is_some (lookup k m)
unfolding lookup
contains-keys k [] = refl
contains-keys k ((j, v) ∷ m) = ground (arith, contains-keys k m)
