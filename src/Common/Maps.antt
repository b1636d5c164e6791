-- ===== src/Common/Maps.antt =====
-- C++'s `std::map` as an association list, and `std::set` of numbers as an ordered list.
use Prim.Native.Nat.{ℕ, ◌+◌, ◌≤◌}
use mathlib.Core.Path.{◌≡◌, refl}
use mathlib.Core.Logic.{◌≢◌}
use mathlib.Core.Bool.{Bool, false, ◌||◌}
use mathlib.Core.Option.{none, some}
use mathlib.Core.List.{List, [], ◌∷◌, lookup}
use native.Mathlib.Omega.{arith}
use rawr.Common.Tests.{ltb, ◌==◌, if◌then◌else◌}
use rawr.Common.Lists.{length}

module _ {ℓ κ} {K : Type ℓ} {V : Type κ} (dec : Discrete K) where
  -- `insert`, which leaves an entry that is there.
  unfoldable pub insert_new : K → V → List (K × V) → List (K × V)
  insert_new k v [] = (k, v) ∷ []
  insert_new k v (e ∷ m) = elim (dec k e.0) [ yes p ↦ e ∷ m | no p ↦ e ∷ insert_new k v m ]

  -- `erase`
  unfoldable pub erase_key : K → List (K × V) → List (K × V)
  erase_key k [] = []
  erase_key k (e ∷ m) = elim (dec k e.0) [ yes p ↦ erase_key k m | no p ↦ e ∷ erase_key k m ]

  -- A change through a pointer to a value.
  unfoldable pub adjust : K → (V → V) → List (K × V) → List (K × V)
  adjust k f [] = []
  adjust k f (e ∷ m) = elim (dec k e.0) [
    | yes p ↦ (e.0, f e.1) ∷ adjust k f m
    | no p ↦ e ∷ adjust k f m
  ]

  pub lookup-insert_new_self :
      (k : K) (v : V) (m : List (K × V))
      → lookup dec k m ≡ none
      → lookup dec k (insert_new k v m) ≡ some v
  unfolding lookup insert_new
  lookup-insert_new_self k v [] h = ground arith
  lookup-insert_new_self k v (e ∷ m) h = ground (arith, lookup-insert_new_self k v m)

  pub lookup-insert_new_ne :
      (k j : K) (v : V) (m : List (K × V))
      → j ≢ k
      → lookup dec j (insert_new k v m) ≡ lookup dec j m
  unfolding lookup insert_new
  lookup-insert_new_ne k j v [] h = ground arith
  lookup-insert_new_ne k j v (e ∷ m) h = ground (arith, lookup-insert_new_ne k j v m)

  pub lookup-erase_key_self : (k : K) (m : List (K × V)) → lookup dec k (erase_key k m) ≡ none
  unfolding lookup erase_key
  lookup-erase_key_self k [] = refl
  lookup-erase_key_self k (e ∷ m) = ground (arith, lookup-erase_key_self k m)

  pub lookup-erase_key_ne :
      (k j : K) (m : List (K × V)) → j ≢ k → lookup dec j (erase_key k m) ≡ lookup dec j m
  unfolding lookup erase_key
  lookup-erase_key_ne k j [] h = refl
  lookup-erase_key_ne k j (e ∷ m) h = ground (arith, lookup-erase_key_ne k j m)

  pub lookup-adjust_self :
      (k : K) (f : V → V) (v : V) (m : List (K × V))
      → lookup dec k m ≡ some v
      → lookup dec k (adjust k f m) ≡ some (f v)
  unfolding lookup adjust
  lookup-adjust_self k f v [] h = ground arith
  lookup-adjust_self k f v (e ∷ m) h = ground (arith, lookup-adjust_self k f v m)

  pub lookup-adjust_ne :
      (k j : K) (f : V → V) (m : List (K × V))
      → j ≢ k
      → lookup dec j (adjust k f m) ≡ lookup dec j m
  unfolding lookup adjust
  lookup-adjust_ne k j f [] h = refl
  lookup-adjust_ne k j f (e ∷ m) h = ground (arith, lookup-adjust_ne k j f m)

  pub adjust_absent :
      (k : K) (f : V → V) (m : List (K × V)) → lookup dec k m ≡ none → adjust k f m ≡ m
  unfolding lookup adjust
  adjust_absent k f [] h = refl
  adjust_absent k f (e ∷ m) h = ground (arith, adjust_absent k f m)

abbrev pub contains : ℕ → List ℕ → Bool
contains k [] = false
contains k (x ∷ xs) = (x == k) || contains k xs

unfoldable pub set_insert : ℕ → List ℕ → List ℕ
set_insert k [] = k ∷ []
set_insert k (x ∷ xs) =
    let later = x ∷ set_insert k xs in
    if ltb k x then k ∷ x ∷ xs else if k == x then x ∷ xs else later

unfoldable pub set_erase : ℕ → List ℕ → List ℕ
set_erase k [] = []
set_erase k (x ∷ xs) = let rest = set_erase k xs in if x == k then rest else x ∷ rest

pub contains-set_insert :
    (j k : ℕ) (xs : List ℕ) → contains j (set_insert k xs) ≡ ((k == j) || contains j xs)
unfolding set_insert
contains-set_insert j k [] = ground arith
contains-set_insert j k (x ∷ xs) = ground (arith, contains-set_insert j k xs)

pub contains-set_erase :
    (j k : ℕ) (xs : List ℕ)
    → contains j (set_erase k xs) ≡ (if k == j then false else contains j xs)
unfolding set_erase
contains-set_erase j k [] = ground arith
contains-set_erase j k (x ∷ xs) = ground (arith, contains-set_erase j k xs)

pub length-set_insert : (k : ℕ) (xs : List ℕ) → length (set_insert k xs) ≤ length xs + 1
unfolding set_insert
length-set_insert k [] = omega arith
length-set_insert k (x ∷ xs) = ground (arith, length-set_insert k xs)

pub length-set_erase : (k : ℕ) (xs : List ℕ) → length (set_erase k xs) ≤ length xs
unfolding set_erase
length-set_erase k [] = omega arith
length-set_erase k (x ∷ xs) = ground (arith, length-set_erase k xs)
