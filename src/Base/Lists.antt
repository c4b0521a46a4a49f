-- ===== src/Base/Lists.antt =====
-- Lists of addresses: the source's `wl_list` and `std::vector`, measured by native numbers.
use Prim.Native.Nat.{ℕ, zero, suc}
use mathlib.Core.Path.{◌≡◌, refl}
use mathlib.Core.Logic.{◌≢◌}
use mathlib.Core.Bool.{Bool, true, false, ◌||◌}
use mathlib.Core.List.{List, [], ◌∷◌}
use mathlib.Core.Option.{Option, none, some}
use native.Mathlib.Omega.{arith}
use steppewm.Base.Tests.{◌==◌, if◌then◌else◌}

module _ {ℓ} {A : Type ℓ} where
  abbrev pub length : List A → ℕ
  length [] = 0
  length (x ∷ xs) = suc (length xs)

  abbrev pub get_elem? : List A → ℕ → Option A
  get_elem? [] i = none
  get_elem? (x ∷ xs) zero = some x
  get_elem? (x ∷ xs) (suc i) = get_elem? xs i

  -- The elements that pass a test, in order.
  abbrev pub filter : (A → Bool) → List A → List A
  filter p [] = []
  filter p (x ∷ xs) = if p x then x ∷ filter p xs else filter p xs

  -- The first element that passes a test: a `wl_list_for_each` with a `break`.
  abbrev pub find : (A → Bool) → List A → Option A
  find p [] = none
  find p (x ∷ xs) = if p x then some x else find p xs

  abbrev pub any : (A → Bool) → List A → Bool
  any p [] = false
  any p (x ∷ xs) = p x || any p xs

  -- `for_each f xs s` runs the body `f` for each element in order.
  abbrev pub for_each {κ} : {S : Type κ} → (A → S → S) → List A → S → S
  for_each f [] s = s
  for_each f (x ∷ xs) s = for_each f xs (f x s)

abbrev pub elem : ℕ → List ℕ → Bool
elem a [] = false
elem a (x ∷ xs) = (x == a) || elem a xs

-- `wl_list_remove`: every link to `a` goes.
abbrev pub remove : ℕ → List ℕ → List ℕ
remove a [] = []
remove a (x ∷ xs) = if x == a then remove a xs else x ∷ remove a xs

-- No address stands twice.
abbrev pub Distinct : List ℕ → Type 0
Distinct [] = Unit
Distinct (x ∷ xs) = (elem x xs ≡ false) × Distinct xs

abbrev pub All {ℓ κ} : {A : Type ℓ} → (A → Type κ) → List A → Type κ
All P [] = Unit
All P (x ∷ xs) = P x × All P xs

pub elem-remove_self : (a : ℕ) (xs : List ℕ) → elem a (remove a xs) ≡ false
elem-remove_self a [] = refl
elem-remove_self a (x ∷ xs) = ground (arith, elem-remove_self a xs)

pub elem-remove : (a b : ℕ) (xs : List ℕ) → elem b xs ≡ false → elem b (remove a xs) ≡ false
elem-remove a b [] h = refl
elem-remove a b (x ∷ xs) h = ground (arith, elem-remove a b xs)

pub elem-remove_ne : (a b : ℕ) (xs : List ℕ) → a ≢ b → elem b (remove a xs) ≡ elem b xs
elem-remove_ne a b [] h = refl
elem-remove_ne a b (x ∷ xs) h = ground (arith, elem-remove_ne a b xs)

pub remove-Distinct : (a : ℕ) (xs : List ℕ) → Distinct xs → Distinct (remove a xs)
remove-Distinct a [] d = tt
remove-Distinct a (x ∷ xs) d = ground (arith, remove-Distinct a xs d.1, elem-remove a x xs d.0)

pub remove_absent : (a : ℕ) (xs : List ℕ) → elem a xs ≡ false → remove a xs ≡ xs
remove_absent a [] h = refl
remove_absent a (x ∷ xs) h = ground (arith, remove_absent a xs)

pub All-remove {κ} : (P : ℕ → Type κ) (a : ℕ) (xs : List ℕ) → All P xs → All P (remove a xs)
All-remove P a [] h = tt
All-remove P a (x ∷ xs) h = ground (arith, All-remove P a xs h.1)

pub find-passes {ℓ} :
    {A : Type ℓ} (p : A → Bool) (xs : List A) {a : A} → find p xs ≡ some a → p a ≡ true
find-passes p [] h = ground arith
find-passes p (x ∷ xs) {a} h = ground (arith, find-passes p xs {a = a})
