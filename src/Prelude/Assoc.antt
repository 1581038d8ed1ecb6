-- ===== src/Prelude/Assoc.antt =====
-- Go's maps as association lists. A range over a map goes through the list in its order. A theorem
-- about every list and one range holds of every order in which Go may visit the keys; where there are
-- several ranges, Manager.Order changes the order from one to the next.
use livy_next.Prelude.{
  ◌≡◌, refl, Bool, true, List, [], ◌∷◌, Option, none, some, arith, if◌then◌else◌, Text, text_eq,
  text_eq→eq, text_eq_refl,
}
use livy_next.Prelude.Int.{ℤ, eqb_ℤ, eqb_ℤ→eq, eqb_ℤ_refl}

-- A type of keys with its equality.
pub record Key (K : Type 0) : Type 0 where
  pub same : K → K → Bool
  pub same→eq : (a b : K) → same a b ≡ true → a ≡ b
  pub same_refl : (a : K) → same a a ≡ true

instance abbrev pub text_key : Key Text
text_key = record { same = text_eq; same→eq = text_eq→eq; same_refl = text_eq_refl }

instance abbrev pub int_key : Key ℤ
int_key = record { same = eqb_ℤ; same→eq = eqb_ℤ→eq; same_refl = eqb_ℤ_refl }

module _ {ℓ} {K : Type 0} {V : Type ℓ} ⦃key : Key K⦄ where
  unfoldable pub lookup : K → List (K × V) → Option V
  lookup k [] = none
  lookup k ((j, v) ∷ m) = if key.same j k then some v else lookup k m

  -- m[k] = v
  unfoldable pub insert : K → V → List (K × V) → List (K × V)
  insert k v [] = (k, v) ∷ []
  insert k v ((j, w) ∷ m) = if key.same j k then (j, v) ∷ m else (j, w) ∷ insert k v m

  -- delete(m, k)
  unfoldable pub remove : K → List (K × V) → List (K × V)
  remove k [] = []
  remove k ((j, w) ∷ m) = if key.same j k then remove k m else (j, w) ∷ remove k m

  pub lookup-insert :
      (k j : K) (v : V) (m : List (K × V))
      → lookup j (insert k v m) ≡ (if key.same k j then some v else lookup j m)
  unfolding lookup insert
  lookup-insert k j v [] = refl
  lookup-insert k j v ((i, w) ∷ m) = ground (
    arith,
    key.same→eq i k,
    key.same→eq i j,
    key.same→eq k j,
    key.same_refl k,
    key.same_refl i,
    lookup-insert k j v m,
  )

  pub lookup-remove :
      (k j : K) (m : List (K × V))
      → lookup j (remove k m) ≡ (if key.same k j then none else lookup j m)
  unfolding lookup remove
  lookup-remove k j [] = ground arith
  lookup-remove k j ((i, w) ∷ m) = ground (
    arith,
    key.same→eq i k,
    key.same→eq i j,
    key.same→eq k j,
    key.same_refl k,
    key.same_refl i,
    lookup-remove k j m,
  )
