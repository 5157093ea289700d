-- ===== src/Klib.antt =====
-- weensyos1-sunnie/lib.c, of which weensyos2/lib.c is a copy: the C library of the two kernels.
-- Memory is a function from an address to a byte, and addresses do not wrap around. A string is
-- the list of its bytes from the pointer on, with the NUL behind them.
use cs111winter.Base.{ℕ, zero, suc, ◌+◌, ◌-◌, ◌%◌, ◌&&◌, List, [], ◌∷◌, ◌==◌, ltb, if◌then◌else◌}
pub mod Copying
pub mod Strings
pub mod Console
pub mod Numbers
pub mod Format
pub mod Printf
mod Tests

-- `*a = v`
abbrev pub write : (a v : ℕ) → (ℕ → ℕ) → ℕ → ℕ
write a v memory b = if b == a then v else memory b

-- Byte by byte, from the first on.
unfoldable pub memcpy : ℕ → (dst src : ℕ) → (ℕ → ℕ) → ℕ → ℕ
memcpy zero dst src memory = memory
memcpy (suc n) dst src memory = memcpy n (dst + 1) (src + 1) (write dst (memory src) memory)

-- From the last on, which `d` and `s` stand behind: the first loop of `memmove`.
unfoldable pub copy_back : ℕ → (dst src : ℕ) → (ℕ → ℕ) → ℕ → ℕ
copy_back zero dst src memory = memory
copy_back (suc n) dst src memory = copy_back n dst src (write (dst + n) (memory (src + n)) memory)

unfoldable pub memmove : ℕ → (dst src : ℕ) → (ℕ → ℕ) → ℕ → ℕ
memmove n dst src memory =
    if ltb src dst && ltb dst (src + n) then copy_back n dst src memory else memcpy n dst src memory

-- The value is stored as a `char`.
unfoldable pub memset : ℕ → (v c : ℕ) → (ℕ → ℕ) → ℕ → ℕ
memset zero v c memory = memory
memset (suc n) v c memory = memset n (v + 1) c (write v (c % 256) memory)

unfoldable pub strlen : List ℕ → ℕ
strlen [] = 0
strlen (c ∷ s) = if c == 0 then 0 else suc (strlen s)

unfoldable pub strnlen : List ℕ → ℕ → ℕ
strnlen [] maxlen = 0
strnlen (c ∷ s) zero = 0
strnlen (c ∷ s) (suc maxlen) = if c == 0 then 0 else suc (strnlen s maxlen)
