-- ===== src/SortedList/Spec.antt =====
-- What the sorted list promises: a sorted sequence of keys.
use cs111winter.Base.{
  ℕ, ◌≡◌, inl, inr, refl, true, false, List, [], ◌∷◌, arith, Bool-cases, if◌then◌else◌,
}
use cs111winter.SortedList.{key_leb}

-- The key goes in front of the first key that is not below it.
unfoldable pub insert_key : List ℕ → List (List ℕ) → List (List ℕ)
insert_key k [] = k ∷ []
insert_key k (x ∷ xs) = if key_leb k x then k ∷ x ∷ xs else x ∷ insert_key k xs

-- No key is above the next one.
unfoldable pub IsSorted : List (List ℕ) → Type 0
IsSorted [] = Unit {0}
IsSorted (x ∷ []) = Unit {0}
IsSorted (x ∷ y ∷ xs) = (key_leb x y ≡ true) × IsSorted (y ∷ xs)

key_leb-flip : (a b : List ℕ) → key_leb a b ≡ false → key_leb b a ≡ true
unfolding key_leb
key_leb-flip [] b h = cc
key_leb-flip (x ∷ a) [] h = refl
key_leb-flip (x ∷ a) (y ∷ b) h = ground (arith, key_leb-flip a b)

-- A sorted sequence behind a key that is not above its first.
unfoldable Above : List ℕ → List (List ℕ) → Type 0
Above k [] = Unit {0}
Above k (x ∷ xs) = key_leb k x ≡ true

IsSorted-cons : (k : List ℕ) (xs : List (List ℕ)) → Above k xs → IsSorted xs → IsSorted (k ∷ xs)
unfolding IsSorted Above
IsSorted-cons k [] a s = tt
IsSorted-cons k (x ∷ xs) a s = (a, s)

IsSorted-tail : (k : List ℕ) (xs : List (List ℕ)) → IsSorted (k ∷ xs) → Above k xs × IsSorted xs
unfolding IsSorted Above
IsSorted-tail k [] s = (tt, tt)
IsSorted-tail k (x ∷ xs) s = s

Above-insert_key :
    (j k : List ℕ) (xs : List (List ℕ))
    → key_leb j k ≡ true
    → Above j xs
    → Above j (insert_key k xs)
unfolding Above insert_key
Above-insert_key j k [] h a = h
Above-insert_key j k (x ∷ xs) h a = elim (Bool-cases (key_leb k x)) [
  | inl yes' ↦ rw yes' h
  | inr no' ↦ rw no' a
]

-- Inserting into a sorted sequence gives a sorted one.
pub insert_key-IsSorted :
    (k : List ℕ) (xs : List (List ℕ)) → IsSorted xs → IsSorted (insert_key k xs)
unfolding insert_key IsSorted
insert_key-IsSorted k [] s = tt
insert_key-IsSorted k (x ∷ xs) s =
    let (a, t) = IsSorted-tail x xs s in
    elim (Bool-cases (key_leb k x)) [
      | inl yes' ↦ rw yes' (yes', s)
      | inr no' ↦ rw no' (
          IsSorted-cons x (insert_key k xs) (Above-insert_key x k xs (key_leb-flip k x no') a)
            (insert_key-IsSorted k xs t))
    ]
