-- ===== src/Prelude/Sort.antt =====
-- slices.Sort on texts, as an insertion sort in the order of Go's `<` on strings.
pub mod Order
pub mod Unique
use Prim.Native.Nat.{Ordering}
use Prim.Native.String.{compare}
use trussium_operator.Prelude.{String, Bool, true, false, List, [], ◌∷◌, if◌then◌else◌}

abbrev pub str_leb : String → String → Bool
str_leb s t = elim (compare s t) [ Ordering.gt ↦ false | _ ↦ true ]

unfoldable pub sort_insert : String → List String → List String
sort_insert x [] = x ∷ []
sort_insert x (y ∷ ys) = if str_leb x y then x ∷ y ∷ ys else y ∷ sort_insert x ys

unfoldable pub sort : List String → List String
unfolding sort_insert
sort [] = []
sort (x ∷ xs) = sort_insert x (sort xs)
