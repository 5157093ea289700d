-- ===== src/Klib/Copying.antt =====
-- `memcpy`, `memmove` and `memset` byte by byte.
use cs111winter.Base.{
  leb, ℕ, zero, suc, ◌+◌, ◌%◌, ◌≤◌, ◌<◌, ◌≡◌, ◌⊎◌, inl, inr, refl, ap, ◌∙◌, arith, ltb,
  if◌then◌else◌, Bool-cases, ◌&&◌,
}
use native.Mathlib.Decide.{ℕ_discrete}
use cs111winter.Klib.{write, memcpy, copy_back, memmove, memset}

pub memcpy_outside :
    (n dst src : ℕ) (memory : ℕ → ℕ) (a : ℕ)
    → (a < dst) ⊎ (dst + n ≤ a)
    → memcpy n dst src memory a ≡ memory a
unfolding memcpy
memcpy_outside zero dst src memory a out = refl
memcpy_outside (suc n) dst src memory a out =
    let next : ℕ → ℕ = write dst (memory src) memory in
    let here : next a ≡ memory a = ground arith in
    memcpy_outside n (dst + 1) (src + 1) next a (ground arith) ∙ here

-- A copy from the first byte on overtakes no byte that is still to be read.
pub memcpy_at :
    (n dst src : ℕ) (memory : ℕ → ℕ) (a b : ℕ)
    → (dst ≤ src) ⊎ (src + n ≤ dst)
    → (dst ≤ a) × (a < dst + n)
    → a + src ≡ b + dst
    → memcpy n dst src memory a ≡ memory b
unfolding memcpy
memcpy_at zero dst src memory a b apart h same = absurd (omega arith)
memcpy_at (suc n) dst src memory a b apart h same =
    let next : ℕ → ℕ = write dst (memory src) memory in
    elim (ℕ_discrete a dst) [
      | yes first ↦
          let here : next a ≡ memory src = ground arith in
          let from : src ≡ b = omega arith in
          memcpy_outside n (dst + 1) (src + 1) next a (inl (omega arith)) ∙ here ∙ ap memory from
      | no more ↦
          let here : next b ≡ memory b = ground arith in
          memcpy_at n (dst + 1) (src + 1) next a b (ground arith) (omega arith) (omega arith) ∙ here
    ]

copy_back_outside :
    (n dst src : ℕ) (memory : ℕ → ℕ) (a : ℕ)
    → (a < dst) ⊎ (dst + n ≤ a)
    → copy_back n dst src memory a ≡ memory a
unfolding copy_back
copy_back_outside zero dst src memory a out = refl
copy_back_outside (suc n) dst src memory a out =
    let next : ℕ → ℕ = write (dst + n) (memory (src + n)) memory in
    let here : next a ≡ memory a = ground arith in
    copy_back_outside n dst src next a (ground arith) ∙ here

copy_back_at :
    (n dst src : ℕ) (memory : ℕ → ℕ) (a b : ℕ)
    → src ≤ dst
    → (dst ≤ a) × (a < dst + n)
    → a + src ≡ b + dst
    → copy_back n dst src memory a ≡ memory b
unfolding copy_back
copy_back_at zero dst src memory a b below h same = absurd (omega arith)
copy_back_at (suc n) dst src memory a b below h same =
    let next : ℕ → ℕ = write (dst + n) (memory (src + n)) memory in
    elim (ℕ_discrete a (dst + n)) [
      | yes last ↦
          let here : next a ≡ memory (src + n) = ground arith in
          let from : src + n ≡ b = omega arith in
          copy_back_outside n dst src next a (inr (omega arith)) ∙ here ∙ ap memory from
      | no more ↦
          let here : next b ≡ memory b = ground arith in
          copy_back_at n dst src next a b below (omega arith) same ∙ here
    ]

-- `after` is `before` with the `n` bytes at `src` copied to `dst`.
pub record IsCopy (n dst src : ℕ) (before after : ℕ → ℕ) : Type 0 where
  pub copied : (x : ℕ) → x < n → after (dst + x) ≡ before (src + x)
  pub outside : (a : ℕ) → (a < dst) ⊎ (dst + n ≤ a) → after a ≡ before a

forward :
    (n dst src : ℕ) (memory : ℕ → ℕ)
    → (dst ≤ src) ⊎ (src + n ≤ dst)
    → IsCopy n dst src memory (memcpy n dst src memory)
forward n dst src memory apart = record {
  copied = λ x h. memcpy_at n dst src memory _ _ apart (omega arith) (omega arith);
  outside = memcpy_outside n dst src memory;
}

-- memmove copies any number of bytes between any two places, and whether they overlap or not each
-- byte arrives with the value it had before; no other byte changes.
pub memmove_lem :
    (n dst src : ℕ) (memory : ℕ → ℕ) → IsCopy n dst src memory (memmove n dst src memory)
unfolding memmove
memmove_lem n dst src memory = elim (Bool-cases (ltb src dst && ltb dst (src + n))) [
  | inl over ↦
      let below : src ≤ dst = ground arith in
      rw over (record {
        copied = λ x h. copy_back_at n dst src memory _ _ below (omega arith) (omega arith);
        outside = copy_back_outside n dst src memory;
      })
  | inr none' ↦ rw none' (forward n dst src memory (ground arith))
]

-- `memset` gives the `n` bytes from `v` on the low byte of `c`, and changes no other.
pub memset_lem :
    (n v c : ℕ) (memory : ℕ → ℕ) (a : ℕ)
    → memset n v c memory a ≡ (if leb v a && ltb a (v + n) then c % 256 else memory a)
unfolding memset
memset_lem zero v c memory a = ground arith
memset_lem (suc n) v c memory a =
    let next : ℕ → ℕ = write v (c % 256) memory in memset_lem n (v + 1) c next a ∙ ground arith
