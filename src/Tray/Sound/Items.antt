-- ===== src/Tray/Sound/Items.antt =====
-- The list of the tray's items: what registering, unregistering and changing an item keep (src/tray.cc).
use steppewm.Base.{
  ℕ, zero, suc, get_elem?, Bool, true, false, none, some, List, [], ◌∷◌, ◌++◌, ◌≡◌, refl, arith,
  ◌==◌, any, Bytes, same, Bool-cases, inl, inr, ◌∙◌, ==_refl,
}
use steppewm.Tray.{
  Item, BusCall, is_item, new_item, item_at_address, erase_items, change_item, item_unregistered,
}

-- No two items have the same bus name and object path.
abbrev pub IsUnique : List Item → Type 0
IsUnique [] = Unit
IsUnique (i ∷ is) = (any (is_item (i.bus_name, i.object_path)) is ≡ false) × IsUnique is

abbrev pub has_address : ℕ → List Item → Bool
has_address a items = any (λ i. i.address == a) items

same_sym : (a b : Bytes) → same a b ≡ same b a
unfolding same
same_sym [] [] = refl
same_sym [] (y ∷ ys) = refl
same_sym (x ∷ xs) [] = refl
same_sym (x ∷ xs) (y ∷ ys) = ground (arith, same_sym xs ys)

any-append :
    (p : Item → Bool) (xs : List Item) (i : Item)
    → any p xs ≡ false
    → p i ≡ false
    → any p (xs ++ i ∷ []) ≡ false
any-append p [] i h k = ground arith
any-append p (x ∷ xs) i h k = ground (arith, any-append p xs i)

is_item-new_item :
    (a : ℕ) (names : Bytes × Bytes) (i : Item)
    → is_item names i ≡ false
    → is_item (i.bus_name, i.object_path) (new_item a names) ≡ false
unfolding is_item new_item
is_item-new_item a names i h =
    ground (arith, same_sym i.bus_name names.0, same_sym i.object_path names.1)

pub IsUnique-append :
    (a : ℕ) (names : Bytes × Bytes) (items : List Item)
    → any (is_item names) items ≡ false
    → IsUnique items
    → IsUnique (items ++ new_item a names ∷ [])
IsUnique-append a names [] h u = (refl, tt)
IsUnique-append a names (i ∷ is) h u = elim (Bool-cases (is_item names i)) [
  | inl e ↦ absurd ((ground arith))
  | inr e ↦ (
    any-append _ is (new_item a names) u.0 (is_item-new_item a names i e),
    IsUnique-append a names is (ground arith) u.1,
  )
]

pub has_address-append :
    (b : ℕ) (items : List Item) (i : Item)
    → has_address b items ≡ true
    → has_address b (items ++ i ∷ []) ≡ true
has_address-append b [] i h = ground arith
has_address-append b (j ∷ is) i h = ground (arith, has_address-append b is i)

any-erase_items :
    (p : Item → Bool) (bus : Bytes) (items : List Item) (cs : List BusCall)
    → any p items ≡ false
    → any p (erase_items bus items cs).0 ≡ false
unfolding erase_items
any-erase_items p bus [] cs h = refl
any-erase_items p bus (i ∷ is) cs h =
    ground
      (arith, any-erase_items p bus is (item_unregistered bus ∷ cs), any-erase_items p bus is cs)

pub IsUnique-erase_items :
    (bus : Bytes) (items : List Item) (cs : List BusCall)
    → IsUnique items
    → IsUnique (erase_items bus items cs).0
unfolding erase_items
IsUnique-erase_items bus [] cs u = tt
IsUnique-erase_items bus (i ∷ is) cs u = elim (Bool-cases (same i.bus_name bus)) [
  | inl e ↦ rw e (IsUnique-erase_items bus is (item_unregistered bus ∷ cs) u.1)
  | inr e ↦ rw e (any-erase_items _ bus is cs u.0, IsUnique-erase_items bus is cs u.1)
]

-- An item that is not of the bus name stays.
pub has_address-erase_items :
    (a : ℕ) (bus : Bytes) (items : List Item) (cs : List BusCall) (i : Item)
    → item_at_address a items ≡ some i
    → same i.bus_name bus ≡ false
    → has_address a (erase_items bus items cs).0 ≡ true
unfolding item_at_address erase_items
has_address-erase_items a bus [] cs i h k = ground arith
has_address-erase_items a bus (j ∷ is) cs i h k = ground (
  arith,
  has_address-erase_items a bus is (item_unregistered bus ∷ cs) i,
  has_address-erase_items a bus is cs i,
)

-- A change that leaves the names and the address of an item alone.
pub record IsTame (f : Item → Item) : Type 0 where
  pub same_bus : (i : Item) → (f i).bus_name ≡ i.bus_name
  pub same_path : (i : Item) → (f i).object_path ≡ i.object_path
  pub same_address : (i : Item) → (f i).address ≡ i.address

module _ (a : ℕ) (f : Item → Item) (tame : IsTame f) where
  is_item-change : (names : Bytes × Bytes) (i : Item) → is_item names (f i) ≡ is_item names i
  unfolding is_item
  is_item-change names i = rw (tame.same_bus i, tame.same_path i) refl

  any-change_item :
      (names : Bytes × Bytes) (items : List Item)
      → any (is_item names) (change_item a f items) ≡ any (is_item names) items
  unfolding change_item
  any-change_item names [] = refl
  any-change_item names (i ∷ is) = ground (arith, is_item-change names i, any-change_item names is)

  pub IsUnique-change_item : (items : List Item) → IsUnique items → IsUnique (change_item a f items)
  unfolding change_item
  IsUnique-change_item [] u = tt
  IsUnique-change_item (i ∷ is) u = elim (Bool-cases (i.address == a)) [
    | inl e ↦ rw (e, tame.same_bus i, tame.same_path i) u
    | inr e ↦
        rw e (any-change_item (i.bus_name, i.object_path) is ∙ u.0, IsUnique-change_item is u.1)
  ]

  pub has_address-change_item :
      (b : ℕ) (items : List Item) → has_address b (change_item a f items) ≡ has_address b items
  unfolding change_item
  has_address-change_item b [] = refl
  has_address-change_item b (i ∷ is) =
      ground (arith, tame.same_address i, has_address-change_item b is)

pub has_address-none :
    (a : ℕ) (items : List Item) → item_at_address a items ≡ none → has_address a items ≡ false
unfolding item_at_address
has_address-none a [] h = refl
has_address-none a (i ∷ is) h = ground (arith, has_address-none a is)

pub has_address_at :
    (items : List Item) (index : ℕ) (i : Item)
    → get_elem? items index ≡ some i
    → has_address i.address items ≡ true
has_address_at [] index i h = ground arith
has_address_at (j ∷ is) zero i h = ground (arith, ==_refl i.address)
has_address_at (j ∷ is) (suc n) i h = ground (arith, has_address_at is n i)
