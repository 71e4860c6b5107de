-- ===== src/Resources/Checksum/Injective.antt =====
-- The text that is hashed determines the environment.
use Prim.Native.String.{len, slice}
use text.Mathlib.TextLemmas.{append_assoc, append_cancel_left}
use text.Mathlib.TextPositions.{slice-append_left}
use trussium_operator.Prelude.{
  ◌≡◌, refl, sym, ap, subst, ◌∙◌, inl, inr, String, ◌<>◌, true, Option, none, some, List, [], ◌∷◌,
  contains, is_some, Bool-cases, ◌==◌, eq_iff,
}
use trussium_operator.Prelude.Text.{decimal}
use trussium_operator.Prelude.Text.Reading.{decimal-inj, decimal-ne_empty}
use trussium_operator.Prelude.Map.{StringMap, lookup, keys, contains-keys}
use trussium_operator.Prelude.Sort.{sort}
use trussium_operator.Prelude.Sort.Unique.{contains-sort}
use trussium_operator.Resources.Config.{value_at, payload_entry, payload_of, checksum_payload}

-- Two texts of one length in front of others.
prefix_inj : (s t x y : String) → len s ≡ len t → s <> x ≡ t <> y → (s ≡ t) × (x ≡ y)
prefix_inj s t x y l h =
    let heads : s ≡ t =
      sym (slice-append_left s x)
      ∙ (ap (λ u. slice u 0 (len s)) h ∙ (ap (slice (t <> y) 0) l ∙ slice-append_left t y)) in
    (heads, append_cancel_left t x y (subst (λ u. u <> x ≡ t <> y) heads h))

-- A text with its length in front.
framed_inj :
    (s t x y : String)
    → decimal (len s) <> (":" <> (s <> x)) ≡ decimal (len t) <> (":" <> (t <> y))
    → (s ≡ t) × (x ≡ y)
framed_inj s t x y h =
    let (lengths, rests) = decimal-inj (len s) (len t) (s <> x) (t <> y) h in
    prefix_inj s t x y lengths rests

-- One entry, with what follows it, as two framed texts.
entry_framed :
    (k v x : String)
    → payload_entry k v <> x
      ≡ decimal (len k) <> (":" <> (k <> (":" <> (decimal (len v) <> (":" <> (v <> (";" <> x)))))))
entry_framed k v x = simp (append_assoc)

entry_inj :
    (k l v w x y : String)
    → payload_entry k v <> x ≡ payload_entry l w <> y
    → (k ≡ l) × (v ≡ w) × (x ≡ y)
entry_inj k l v w x y h =
    let (same, rests) = framed_inj k l _ _ (sym (entry_framed k v x) ∙ (h ∙ entry_framed l w y)) in
    let (same', ends) = framed_inj v w (";" <> x) (";" <> y) (append_cancel_left ":" _ _ rests) in
    (same, same', append_cancel_left ";" x y ends)

entry-ne_empty : (k v x : String) → ¬ payload_entry k v <> x ≡ ""
entry-ne_empty k v x h = decimal-ne_empty (len k) _ (sym (entry_framed k v x) ∙ h)

-- The same keys, with the same values at them.
payload_of-inj :
    (a b : StringMap) (ks ls : List String)
    → payload_of a ks ≡ payload_of b ls
    → (ks ≡ ls)
      × ((k : String) → contains ks k ≡ true → value_at (lookup k a) ≡ value_at (lookup k b))
unfolding payload_of
payload_of-inj a b [] [] h = (refl, λ k g. cc)
payload_of-inj a b [] (l ∷ ls) h = absurd (entry-ne_empty l _ _ (sym h))
payload_of-inj a b (k ∷ ks) [] h = absurd (entry-ne_empty k _ _ h)
payload_of-inj a b (k ∷ ks) (l ∷ ls) h =
    let (same, values, rests) = entry_inj k l _ _ _ _ h in
    let (sames, later) = payload_of-inj a b ks ls rests in
    (
      ap (λ t. t ∷ ks) same ∙ ap (◌∷◌ l) sames,
      λ t g. elim (Bool-cases (k == t)) [
        | inl e ↦
            subst (λ u. value_at (lookup u a) ≡ value_at (lookup u b)) ((eq_iff k t).0 e)
              (values ∙ ap (λ u. value_at (lookup u b)) (sym same))
        | inr e ↦ later t (rw e at g)
      ],
    )

same_lookup :
    (x y : Option String)
    → is_some x ≡ is_some y
    → (is_some x ≡ true → value_at x ≡ value_at y)
    → x ≡ y
same_lookup none none h v = refl
same_lookup none (some t) h v = cc
same_lookup (some s) none h v = cc
same_lookup (some s) (some t) h v = ap some (v refl)

sorted_keys-contains :
    (k : String) (m : StringMap) → contains (sort (keys m)) k ≡ is_some (lookup k m)
sorted_keys-contains k m = contains-sort (keys m) k ∙ contains-keys k m

-- Two environments with the same text to hash have the same entries: the lengths in front of keys
-- and values keep different environments apart.
pub checksum_payload-lookup :
    (a b : StringMap)
    → checksum_payload a ≡ checksum_payload b
    → (k : String) → lookup k a ≡ lookup k b
unfolding checksum_payload
checksum_payload-lookup a b h k =
    let (same, values) = payload_of-inj a b (sort (keys a)) (sort (keys b)) h in
    same_lookup (lookup k a) (lookup k b)
      (sym (sorted_keys-contains k a) ∙ (ap (λ ks. contains ks k) same ∙ sorted_keys-contains k b))
      (λ g. values k (sorted_keys-contains k a ∙ g))
