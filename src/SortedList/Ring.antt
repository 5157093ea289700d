-- ===== src/SortedList/Ring.antt =====
-- Rings of distinct elements behind a head, linked both ways, and how they change by linking one
-- element in and taking it out.
use cs111winter.Base.{
  sym, ap, ℕ, ◌≡◌, ◌≢◌, ◌⊎◌, inl, inr, refl, ◌∙◌, Bool, true, false, ◌||◌, List, [], ◌∷◌, ◌++◌,
  arith, ◌==◌,
}
use cs111winter.SortedList.{Heap}
use cs111winter.SortedList.Laws.{first_or}

abbrev pub has : ℕ → List ℕ → Bool
has a [] = false
has a (x ∷ xs) = (a == x) || has a xs

infix 40 ◌∉◌
abbrev pub ◌∉◌ : ℕ → List ℕ → Type 0
a ∉ xs = has a xs ≡ false

unfoldable pub Distinct : List ℕ → Type 0
Distinct [] = Unit {0}
Distinct (x ∷ xs) = (x ∉ xs) × Distinct xs

-- From `a` the elements `xs` follow each other up to `b`, and each points back to the one before.
unfoldable pub Chain : Heap → (a : ℕ) → List ℕ → (b : ℕ) → Type 0
Chain h a [] b = ((h a).next ≡ b) × ((h b).prev ≡ a)
Chain h a (x ∷ xs) b = ((h a).next ≡ x) × (((h x).prev ≡ a) × Chain h x xs b)

pub record IsRing (h : Heap) (head : ℕ) (xs : List ℕ) : Type 0 where
  pub chain : Chain h head xs head
  pub distinct : Distinct (head ∷ xs)

-- The last of the elements, or what stands before them.
unfoldable pub last_or : List ℕ → ℕ → ℕ
last_or [] a = a
last_or (x ∷ xs) a = last_or xs x

module _ (h h' : Heap) where
  -- Links of elements that a change spares stay.
  pub Chain-frame :
      (a : ℕ) (xs : List ℕ) (b : ℕ)
      → Chain h a xs b
      → ((x : ℕ) → has x (a ∷ xs) ≡ true → (h' x).next ≡ (h x).next)
      → ((x : ℕ) → ((x ≡ b) ⊎ (has x xs ≡ true)) → (h' x).prev ≡ (h x).prev)
      → Chain h' a xs b
  unfolding Chain
  Chain-frame a [] b (e, f) nexts prevs = (nexts a (ground arith) ∙ e, prevs b (inl refl) ∙ f)
  Chain-frame a (x ∷ xs) b (e, (f, rest)) nexts prevs = (
    nexts a (ground arith) ∙ e,
    (
      prevs x (inr (ground arith)) ∙ f,
      Chain-frame x xs b rest (λ y i. nexts y (ground arith))
          (λ y i. elim i [ inl e' ↦ prevs y (inl e') | inr i' ↦ prevs y (inr (ground arith)) ]),
    ),
  )

-- The element before `first_or zs b`.
pub Chain-prev :
    (h : Heap) (a : ℕ) (ys zs : List ℕ) (b : ℕ)
    → Chain h a (ys ++ zs) b
    → (h (first_or zs b)).prev ≡ last_or ys a
unfolding Chain first_or last_or
Chain-prev h a [] [] b (e, f) = f
Chain-prev h a [] (z ∷ zs) b (e, (f, rest)) = f
Chain-prev h a (y ∷ ys) zs b (e, (f, rest)) = Chain-prev h y ys zs b rest

pub Chain-next :
    (h : Heap) (a : ℕ) (ys zs : List ℕ) (b : ℕ)
    → Chain h a (ys ++ zs) b
    → (h (last_or ys a)).next ≡ first_or zs b
unfolding Chain first_or last_or
Chain-next h a [] [] b (e, f) = e
Chain-next h a [] (z ∷ zs) b (e, (f, rest)) = e
Chain-next h a (y ∷ ys) zs b (e, (f, rest)) = Chain-next h y ys zs b rest

pub has-append : (a : ℕ) (ys zs : List ℕ) → has a (ys ++ zs) ≡ (has a ys || has a zs)
has-append a [] zs = refl
has-append a (y ∷ ys) zs = ground (arith, has-append a ys zs)

pub ∉-append : (a : ℕ) (ys zs : List ℕ) → a ∉ (ys ++ zs) → (a ∉ ys) × (a ∉ zs)
∉-append a ys zs out =
    let e : (has a ys || has a zs) ≡ false = sym (has-append a ys zs) ∙ out in
    (ground arith, ground arith)

-- An element of the list is no element that is not in it.
pub has-ne : (x y : ℕ) (xs : List ℕ) → has x xs ≡ true → y ∉ xs → x ≢ y
has-ne x y xs i out = λ e. cc (ap (λ a. has a xs) e)

-- An element that is not in the list is neither its last nor its first.
pub last_or-ne : (x a : ℕ) (ys : List ℕ) → x ≢ a → x ∉ ys → x ≢ last_or ys a
unfolding last_or
last_or-ne x a [] other out = other
last_or-ne x a (y ∷ ys) other out = last_or-ne x y ys (ground arith) (ground arith)

pub first_or-ne : (x b : ℕ) (zs : List ℕ) → x ≢ b → x ∉ zs → x ≢ first_or zs b
unfolding first_or
first_or-ne x b [] other out = other
first_or-ne x b (z ∷ zs) other out = ground arith

-- `h'` is `h` with `element` linked in between `p` and `n`.
pub record LinkedIn (h h' : Heap) (p n element : ℕ) : Type 0 where
  pub next_p : (h' p).next ≡ element
  pub next_element : (h' element).next ≡ n
  pub prev_element : (h' element).prev ≡ p
  pub prev_n : (h' n).prev ≡ element
  pub next_others : (x : ℕ) → x ≢ p → x ≢ element → (h' x).next ≡ (h x).next
  pub prev_others : (x : ℕ) → x ≢ n → x ≢ element → (h' x).prev ≡ (h x).prev

-- `h'` is `h` with what stands between `p` and `n` taken out.
pub record TakenOut (h h' : Heap) (p n element : ℕ) : Type 0 where
  pub next_p : (h' p).next ≡ n
  pub prev_n : (h' n).prev ≡ p
  pub next_others : (x : ℕ) → x ≢ p → x ≢ element → (h' x).next ≡ (h x).next
  pub prev_others : (x : ℕ) → x ≢ n → x ≢ element → (h' x).prev ≡ (h x).prev
