-- ===== src/Ospfs/Mem.antt =====
-- The image that lab3/ospfsmod.c works on: `ospfs_data`, an array of bytes, with the 32-bit loads
-- and stores that the code makes through casts of its pointers (little-endian, as on the i386 that
-- the module is built for). A pointer into the image is its byte offset.
use cs111winter.Base.{
  refl, ◌∙◌, ap, ℕ, zero, suc, ◌+◌, ◌*◌, ◌/◌, ◌%◌, ◌^◌, ◌≤◌, ◌<◌, ◌≡◌, ◌⊎◌, List, [], ◌∷◌, arith,
  ◌==◌, if◌then◌else◌,
}

-- A cell holds a byte: a load takes it modulo 256.
abbrev pub Mem : Type 0
Mem = ℕ → ℕ

abbrev pub Ptr : Type 0
Ptr = ℕ

unfoldable pub load8 : Mem → Ptr → ℕ
load8 m a = m a % 256

unfoldable pub store8 : Mem → Ptr → ℕ → Mem
store8 m a v b = if b == a then v % 256 else m b

-- The word at `a` is put together from its four bytes.
unfoldable pub load32 : Mem → Ptr → ℕ
unfolding load8
load32 m a =
    load8 m a + load8 m (a + 1) * 2 ^ 8 + load8 m (a + 2) * 2 ^ 16 + load8 m (a + 3) * 2 ^ 24

unfoldable pub store32 : Mem → Ptr → ℕ → Mem
unfolding store8
store32 m a v =
    store8 (store8 (store8 (store8 m a v) (a + 1) (v / 2 ^ 8)) (a + 2) (v / 2 ^ 16)) (a + 3)
      (v / 2 ^ 24)

-- `memcpy` of the bytes of a list to `a`.
unfoldable pub store_bytes : Mem → Ptr → List ℕ → Mem
unfolding store8
store_bytes m a [] = m
store_bytes m a (x ∷ xs) = store_bytes (store8 m a x) (a + 1) xs

-- The `n` bytes from `a` on.
unfoldable pub load_bytes : Mem → Ptr → ℕ → List ℕ
unfolding load8
load_bytes m a zero = []
load_bytes m a (suc n) = load8 m a ∷ load_bytes m (a + 1) n

-- Two ranges of addresses that do not meet.
abbrev pub Apart : Ptr → ℕ → Ptr → ℕ → Type 0
Apart a n b k = (a + n ≤ b) ⊎ (b + k ≤ a)

module _ (m : Mem) where
  pub load32-lt : (a : Ptr) → load32 m a < 2 ^ 32
  unfolding load32
  load32-lt a = omega arith

  pub load8-lt : (a : Ptr) → load8 m a < 256
  unfolding load8
  load8-lt a = omega arith

  pub store32_outside : (a : Ptr) (v : ℕ) (b : Ptr) → Apart a 4 b 1 → store32 m a v b ≡ m b
  unfolding store32
  store32_outside a v b h = ground arith

  pub load8-store32 :
      (a : Ptr) (v : ℕ) (b : Ptr) → Apart a 4 b 1 → load8 (store32 m a v) b ≡ load8 m b
  unfolding load8
  load8-store32 a v b h = ap (λ (x : ℕ). x % 256) (store32_outside a v b h)

  pub load32-store32_ne :
      (a : Ptr) (v : ℕ) (b : Ptr) → Apart a 4 b 4 → load32 (store32 m a v) b ≡ load32 m b
  unfolding load32
  load32-store32_ne a v b h = rw (
    load8-store32 a v b (omega arith),
    load8-store32 a v (b + 1) (omega arith),
    load8-store32 a v (b + 2) (omega arith),
    load8-store32 a v (b + 3) (omega arith),
  )

  store32_bytes :
      (a : Ptr) (v : ℕ)
      → (store32 m a v a ≡ v % 256)
        × (store32 m a v (a + 1) ≡ v / 2 ^ 8 % 256)
        × (store32 m a v (a + 2) ≡ v / 2 ^ 16 % 256)
        × (store32 m a v (a + 3) ≡ v / 2 ^ 24 % 256)
  unfolding store32
  store32_bytes a v = (ground arith, ground arith, ground arith, ground arith)

  -- Reading back a word that was stored gives it modulo 2^32.
  pub load32-store32 : (a : Ptr) (v : ℕ) → load32 (store32 m a v) a ≡ v % 2 ^ 32
  unfolding load32
  load32-store32 a v = let b = store32_bytes a v in rw (b.0, b.1, b.2, b.3) (omega arith)

-- The `n` bytes from `a` on are the same in both memories.
pub record Same (a : Ptr) (n : ℕ) (m m' : Mem) : Type 0 where
  pub keeps : (x : Ptr) → a ≤ x → x < a + n → m' x ≡ m x

module _ {m m' : Mem} where
  pub load8-Same : (a : Ptr) → Same a 1 m m' → load8 m' a ≡ load8 m a
  unfolding load8
  load8-Same a s = ap (λ (x : ℕ). x % 256) (s.keeps a (omega arith) (omega arith))

  pub load32-Same : (a : Ptr) → Same a 4 m m' → load32 m' a ≡ load32 m a
  unfolding load32 load8
  load32-Same a s = rw (
    s.keeps a (omega arith) (omega arith),
    s.keeps (a + 1) (omega arith) (omega arith),
    s.keeps (a + 2) (omega arith) (omega arith),
    s.keeps (a + 3) (omega arith) (omega arith),
  )

pub Same-trans : {a : Ptr} {n : ℕ} {l m r : Mem} → Same a n l m → Same a n m r → Same a n l r
Same-trans p q = record { keeps = λ x lo hi. q.keeps x lo hi ∙ p.keeps x lo hi }

pub Same-sub :
    {a b : Ptr} {n k : ℕ} {m m' : Mem} → a ≤ b → b + k ≤ a + n → Same a n m m' → Same b k m m'
Same-sub h k s = record { keeps = λ x lo hi. s.keeps x (omega arith) (omega arith) }

pub Same-refl : (a : Ptr) (n : ℕ) (m : Mem) → Same a n m m
Same-refl a n m = record { keeps = λ x lo hi. refl }

pub Same-store32 :
    (a : Ptr) (n : ℕ) (m : Mem) (b : Ptr) (v : ℕ) → Apart b 4 a n → Same a n m (store32 m b v)
Same-store32 a n m b v h = record { keeps = λ x lo hi. store32_outside m b v x (omega arith) }
