-- ===== src/Plugins/Arrays.antt =====
-- Membership in arrays of texts (src/plugins/utils.go).
use mathlib.Core.Bool.{false≢true}
use hxscanner.Prelude.{
  ◌≡◌, refl, ◌↔◌, ◌⊎◌, String, true, List, [], ◌∷◌, ◌==◌, All, eq_iff, eq_refl, Bool-cases, inl,
  inr,
}
use hxscanner.Plugins.Utils.{is_string_in_array, is_all_in_array}

-- The text is one of the list.
abbrev pub IsIn : String → List String → Type 0
IsIn a [] = ⊥
IsIn a (x ∷ xs) = (x ≡ a) ⊎ IsIn a xs

found-IsIn : (a : String) (xs : List String) → is_string_in_array a xs ≡ true → IsIn a xs
unfolding is_string_in_array
found-IsIn a [] h = false≢true h
found-IsIn a (x ∷ xs) h = elim (Bool-cases (x == a)) [
  | inl e ↦ inl ((eq_iff x a).0 e)
  | inr e ↦ inr (found-IsIn a xs (rw e at h))
]

IsIn-found : (a : String) (xs : List String) → IsIn a xs → is_string_in_array a xs ≡ true
unfolding is_string_in_array
IsIn-found a [] h = absurd h
IsIn-found a (x ∷ xs) (inl e) = rw (e, eq_refl a) refl
IsIn-found a (x ∷ xs) (inr h) =
    let later : is_string_in_array a xs ≡ true = IsIn-found a xs h in
    elim (Bool-cases (x == a)) [ inl e ↦ rw e refl | inr e ↦ rw e later ]

found-All :
    (items vals : List String) → is_all_in_array items vals ≡ true → All (λ a. IsIn a vals) items
unfolding is_all_in_array
found-All [] vals h = tt
found-All (a ∷ items) vals h = elim (Bool-cases (is_string_in_array a vals)) [
  | inl e ↦ (found-IsIn a vals e, found-All items vals (rw e at h))
  | inr e ↦ absurd (false≢true (rw e at h))
]

All-found :
    (items vals : List String) → All (λ a. IsIn a vals) items → is_all_in_array items vals ≡ true
unfolding is_all_in_array
All-found [] vals h = refl
All-found (a ∷ items) vals h = rw (IsIn-found a vals h.0) (All-found items vals h.1)

-- `isAllInArray` answers whether every text of the first array is one of the second.
pub is_all_in_array-All :
    (items vals : List String) → (is_all_in_array items vals ≡ true) ↔ All (λ a. IsIn a vals) items
is_all_in_array-All items vals = (found-All items vals, All-found items vals)
