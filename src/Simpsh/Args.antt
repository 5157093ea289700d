-- ===== src/Simpsh/Args.antt =====
-- lab1-sunnieKim/main.c: strIsNum, passChecks and findArgs, and the argument array they fill.
-- A string is the list of its characters without the NUL; a null pointer is `none`.
pub mod Laws
use Prim.Native.Nat.{min}
use cs111winter.Base.{
  ℕ, ◌+◌, ◌*◌, ◌-◌, ◌%◌, ◌^◌, Bool, true, false, ◌&&◌, not, Option, none, some, List, [], ◌∷◌, ◌++◌,
  ltb, leb, ◌==◌, if◌then◌else◌, length, drop,
}

abbrev pub Str : Type 0
Str = List ℕ

-- `isdigit`
abbrev pub is_digit : ℕ → Bool
is_digit c = leb 48 c && leb c 57

abbrev pub all_digits : Str → Bool
all_digits [] = true
all_digits (c ∷ cs) = let rest = all_digits cs in if is_digit c then rest else false

-- `strIsNum`: a null pointer and the empty string count as numbers.
abbrev pub str_is_num : Option Str → Bool
str_is_num none = true
str_is_num (some s) = all_digits s

-- `atoi` of the C library on a string of digits: strtol, which stops at the largest long, cast to
-- an int. The int is its pattern of 32 bits; the pattern of a negative one is 2^31 at least.
unfoldable pub atoi_from : ℕ → Str → ℕ
atoi_from n [] = n
atoi_from n (c ∷ cs) = atoi_from (n * 10 + (c - 48)) cs

unfoldable pub atoi : Option Str → ℕ
unfolding atoi_from
atoi none = 0
atoi (some s) = min (atoi_from 0 s) (2 ^ 63 - 1) % 2 ^ 32

-- `passChecks`
abbrev pub pass_checks : Option Str → (index num_args : ℕ) → Bool
pass_checks str index num_args =
    if not (str_is_num str) then false else if leb num_args index then false else true

-- args_array: the entries written so far (their number is args_array_cur; `none` is NULL), the
-- number of entries that were allocated, and how many stores went past that.
pub record Args : Type 0 where
  pub entries : List (Option Str)
  pub capacity : ℕ
  pub overruns : ℕ

-- malloc(args_array_size * sizeof(char *)) with args_array_size = 2
abbrev pub new_args : Args
new_args = record { entries = []; capacity = 2; overruns = 0 }

-- `args_array[args_array_cur] = v; args_array_cur++`
abbrev pub put_arg : Option Str → Args → Args
put_arg v a = record a {
  entries = a.entries ++ v ∷ [];
  overruns = if ltb (length a.entries) a.capacity then a.overruns else a.overruns + 1;
}

-- `if (args_array_cur == size) realloc(args_array, size * 2)`, with the caller's idea of the size
abbrev pub grow_args : ℕ → Args → Args
grow_args size a = if length a.entries == size then record a { capacity = size * 2 } else a

-- argv[index][0] == '-' && argv[index][1] == '-'
abbrev pub is_option : Str → Bool
is_option [] = false
is_option (a ∷ []) = false
is_option (a ∷ b ∷ cs) = (a == 45) && (b == 45)

-- The loop of `findArgs`, over the words of argv from `index` on. The size that it grows by is its
-- own copy of args_array_size.
unfoldable pub find_args_from : List Str → (index size : ℕ) → Args → ℕ × Args
find_args_from [] index size a = (index, a)
find_args_from (w ∷ ws) index size a =
    let rest =
      find_args_from ws (index + 1) (if length a.entries == size then size * 2 else size)
        (put_arg (some w) (grow_args size a)) in
    if is_option w then (index, a) else rest

-- `findArgs`: the new index into argv, and the array.
unfoldable pub find_args : List Str → (index size : ℕ) → Args → ℕ × Args
unfolding find_args_from
find_args argv index size a = find_args_from (drop index argv) index size a
