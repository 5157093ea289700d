-- ===== src/Klib/Printf/Field.antt =====
-- What `console_vprintf` prints for one directive, as a string.
use Prim.Native.Nat.{bit_and, min, max}
use native.Mathlib.Decide.{ℕ_discrete}
use mathlib.Core.Path.{subst}
use cs111winter.Klib.Strings.{strnlen_lem}
use cs111winter.Klib.Numbers.Laws.{IsText, IsText-strlen}
use cs111winter.Base.{
  sym, ◌∙◌, not, ◌&&◌, ◌≢◌, length-replicate, length-append, length-take, false, minus_one, ◌⊎◌,
  int_ltb, ◌⊎◌, arith, ◌^◌, true, ap, ◌<◌, take, int_ltb, inr, inl, ℕ, zero, suc, ◌+◌, ◌-◌, ◌≡◌,
  refl, Bool, List, [], ◌∷◌, ◌++◌, ◌==◌, length, replicate, if◌then◌else◌, Bool-cases,
}
use cs111winter.Klib.Console.{Screen, console_putc, put_times, put_string}
use cs111winter.Klib.Printf.{
  sign_char, print_field, field_length, zeros_of, padding, positive, Converted, put_sign, one_if,
}

put_string-append :
    (color : ℕ) (a b : List ℕ) (s : Screen)
    → put_string color (a ++ b) s ≡ put_string color b (put_string color a s)
unfolding put_string
put_string-append color [] b s = refl
put_string-append color (c ∷ a) b s = put_string-append color a b (console_putc color c s)

put_times_lem :
    (n color c : ℕ) (s : Screen) → put_times n color c s ≡ put_string color (replicate n c) s
unfolding put_times put_string
put_times_lem zero color c s = refl
put_times_lem (suc n) color c s = put_times_lem n color c (console_putc color c s)

-- The sign, as a string.
abbrev pub sign_text : ℕ → List ℕ
sign_text sign = if sign == 0 then [] else sign ∷ []

put_sign_lem :
    (color sign : ℕ) (s : Screen) → put_sign color sign s ≡ put_string color (sign_text sign) s
unfolding put_string
put_sign_lem color sign s = elim (Bool-cases (sign == 0)) [ inl e ↦ rw e refl | inr e ↦ rw e refl ]

-- The layout of a number: `body` between spaces or zeros, at least `width` characters.
abbrev pub field_text : (width pad sign : ℕ) (left : Bool) → List ℕ → List ℕ
field_text width pad sign left body =
    let rest = width - (length body + pad + length (sign_text sign)) in
    replicate (if left then 0 else rest) 32
    ++ sign_text sign
    ++ replicate pad 48
    ++ body
    ++ replicate (if left then rest else 0) 32

sign_length : (sign : ℕ) → length (sign_text sign) ≡ one_if sign
sign_length sign = ground arith

-- The character in front of a number: `-`, or what a flag asks for instead. The flags are those of
-- the characters #, 0, -, a space and +, from 1 to 16.
pub data IsSign (flags : ℕ) (d : Converted) : ℕ → Type 0 where
  minus : d.numeric ≡ true → d.negative ≡ true → IsSign flags d 45
  plus : (d.numeric && d.negative) ≡ false → bit_and flags 16 ≢ 0 → IsSign flags d 43
  space :
      (d.numeric && d.negative) ≡ false
      → bit_and flags 16 ≡ 0
      → bit_and flags 8 ≢ 0
      → IsSign flags d 32
  bare :
      (d.numeric && d.negative) ≡ false
      → bit_and flags 16 ≡ 0
      → bit_and flags 8 ≡ 0
      → IsSign flags d 0

sign_char-IsSign : (flags : ℕ) (d : Converted) → IsSign flags d (sign_char flags d)
sign_char-IsSign flags d = elim (Bool-cases (d.numeric && d.negative)) [
  | inl e ↦ rw e (minus (ground arith) (ground arith))
  | inr e ↦ elim (ℕ_discrete (bit_and flags 16) 0) [
    | no asked ↦ let a : (bit_and flags 16 == 0) ≡ false = ground arith in rw (e, a) (plus e asked)
    | yes n16 ↦
        let a : (bit_and flags 16 == 0) ≡ true = ground arith in
        elim (ℕ_discrete (bit_and flags 8) 0) [
          | no asked ↦
              let b : (bit_and flags 8 == 0) ≡ false = ground arith in
              rw (e, a, b) (space e n16 asked)
          | yes n8 ↦
              let b : (bit_and flags 8 == 0) ≡ true = ground arith in rw (e, a, b) (bare e n16 n8)
        ]
  ]
]

-- The zeros in front of a number of `len` characters with a sign of `sign_len`: up to the
-- precision, if there is one; else up to the width, with the flag 0 and without the flag -; else
-- none, and none in front of text.
pub data IsPad (flags least precision : ℕ) (d : Converted) (len sign_len : ℕ) : ℕ → Type 0 where
  to_precision :
      {pad : ℕ}
      → d.numeric ≡ true
      → int_ltb precision 0 ≡ false
      → len + pad ≡ max precision len
      → IsPad flags least precision d len sign_len pad
  to_width :
      {pad : ℕ}
      → d.numeric ≡ true
      → int_ltb precision 0 ≡ true
      → bit_and flags 6 ≡ 2
      → sign_len + len + pad ≡ max least (sign_len + len)
      → IsPad flags least precision d len sign_len pad
  no_zeros :
      (d.numeric ≡ false) ⊎ ((int_ltb precision 0 ≡ true) × (bit_and flags 6 ≢ 2))
      → IsPad flags least precision d len sign_len 0

-- Of a string a precision that is not negative takes a prefix.
abbrev pub body_of : (precision : ℕ) → List ℕ → List ℕ
body_of precision chars = if int_ltb precision 0 then chars else take precision chars

take_all : (chars : List ℕ) → take (length chars) chars ≡ chars
take_all [] = refl
take_all (c ∷ chars) = ap (λ s. c ∷ s) (take_all chars)

take-min : (n : ℕ) (chars : List ℕ) → take (min n (length chars)) chars ≡ take n chars
take-min zero chars = let e : min 0 (length chars) ≡ 0 = omega arith in rw e refl
take-min (suc n) [] = let e : min (suc n) 0 ≡ 0 = omega arith in rw e refl
take-min (suc n) (c ∷ chars) =
    let e : min (suc n) (suc (length chars)) ≡ suc (min n (length chars)) = omega arith in
    rw e (ap (λ s. c ∷ s) (take-min n chars))

positive_lem : (n : ℕ) → n < 2 ^ 31 → positive n ≡ n
positive_lem n h = ground arith

-- The sizes for which no `int` overflows.
abbrev pub IsSmall : ℕ → Type 0
IsSmall n = n < 2 ^ 28

body_lem :
    (precision : ℕ) (d : Converted)
    → IsText d.chars
    → IsSmall (length d.chars)
    → (field_length precision d ≡ length (body_of precision d.chars))
      × IsSmall (field_length precision d)
      × (take (length (body_of precision d.chars)) d.chars ≡ body_of precision d.chars)
body_lem precision d text small = elim (Bool-cases (int_ltb precision 0)) [
  | inl e ↦ rw (e, IsText-strlen d.chars text) (omega arith, omega arith, take_all d.chars)
  | inr e ↦
      rw
        (
          e,
          strnlen_lem d.chars precision,
          IsText-strlen d.chars text,
          length-take precision d.chars,
        )
        (omega arith, omega arith, take-min precision d.chars)
]

-- The width that a directive gives, or -1 where it gives none, and how many characters that asks for.
pub data IsWidth : (width least : ℕ) → Type 0 where
  given : {n : ℕ} → IsSmall n → IsWidth n n
  absent : IsWidth minus_one 0

padding_lem :
    (width least len pad sign : ℕ)
    → IsWidth width least
    → IsSmall len
    → IsSmall pad
    → positive (padding width len pad sign) ≡ least - (len + pad + one_if sign)
padding_lem width _ len pad sign (given w) l z = ground arith
padding_lem _ _ len pad sign absent l z = ground arith

-- What fills a number up: to the precision, or to the width where there is no precision.
zeros_of_lem :
    (flags width least precision : ℕ) (numeric : Bool) (len sign : ℕ)
    → IsWidth width least
    → (int_ltb precision 0 ≡ true) ⊎ IsSmall precision
    → IsSmall len
    → IsSmall (zeros_of flags width precision numeric len sign)
      × (numeric ≡ true
          → int_ltb precision 0 ≡ false
          → len + zeros_of flags width precision numeric len sign ≡ max precision len)
zeros_of_lem flags width _ precision numeric len sign (given w) p l =
    (ground arith, λ num nonneg. ground arith)
zeros_of_lem flags _ _ precision numeric len sign absent p l =
    (ground arith, λ num nonneg. ground arith)

to_width_lem :
    (flags width least precision len sign : ℕ)
    → IsWidth width least
    → int_ltb precision 0 ≡ true
    → bit_and flags 6 ≡ 2
    → IsSmall len
    → one_if sign + len + zeros_of flags width precision true len sign
      ≡ max least (one_if sign + len)
to_width_lem flags width _ precision len sign (given w) p f l = ground arith
to_width_lem flags _ _ precision len sign absent p f l = ground arith

no_zeros_lem :
    (flags width precision : ℕ) (numeric : Bool) (len sign : ℕ)
    → (numeric ≡ false) ⊎ ((int_ltb precision 0 ≡ true) × (bit_and flags 6 ≢ 2))
    → IsSmall len
    → zeros_of flags width precision numeric len sign ≡ 0
no_zeros_lem flags width precision numeric len sign (inl e) l = ground arith
no_zeros_lem flags width precision numeric len sign (inr (p, f)) l = ground arith

zeros_of-IsPad :
    (flags width least precision : ℕ) (d : Converted) (len sign : ℕ)
    → IsWidth width least
    → (int_ltb precision 0 ≡ true) ⊎ IsSmall precision
    → IsSmall len
    → IsPad flags least precision d len
        (one_if sign)
        (zeros_of flags width precision d.numeric len sign)
zeros_of-IsPad flags width least precision d len sign w p l = elim (Bool-cases d.numeric) [
  | inr text ↦
      subst (IsPad flags least precision d len (one_if sign))
        (sym (no_zeros_lem flags width precision d.numeric len sign (inl text) l))
        (no_zeros (inl text))
  | inl num ↦ elim (Bool-cases (int_ltb precision 0)) [
    | inr nonneg ↦
        to_precision num nonneg
          ((zeros_of_lem flags width least precision d.numeric len sign w p l).1 num nonneg)
    | inl none' ↦ elim (ℕ_discrete (bit_and flags 6) 2) [
      | yes f ↦
          let wide = to_width_lem flags width least precision len sign w none' f l in
          to_width num none' f
            (ap (λ b. one_if sign + len + zeros_of flags width precision b len sign) num ∙ wide)
      | no f ↦
          subst (IsPad flags least precision d len (one_if sign))
            (sym (no_zeros_lem flags width precision d.numeric len sign (inr (none', f)) l))
            (no_zeros (inr (none', f)))
    ]
  ]
]

-- The spaces, the sign, the zeros and the characters of a field, one after the other.
field_parts :
    (before after pad color sign : ℕ) (body : List ℕ) (s : Screen)
    → put_times after color 32 (
        put_string color body
          (put_times pad color 48 (put_sign color sign (put_times before color 32 s))))
      ≡ put_string color
          (replicate before 32 ++ sign_text sign ++ replicate pad 48 ++ body ++ replicate after 32)
          s
field_parts before after pad color sign body s =
    rw (put_sign_lem color sign) (simp (put_times_lem, put_string-append))

parts-length :
    (before after pad sign : ℕ) (body : List ℕ)
    → length
        (replicate before 32 ++ sign_text sign ++ replicate pad 48 ++ body ++ replicate after 32)
      ≡ before + (length (sign_text sign) + (pad + (length body + after)))
parts-length before after pad sign body =
    let spaces : List ℕ = replicate before 32 in
    let digits : List ℕ = replicate pad 48 in
    let end : List ℕ = replicate after 32 in
    let a : length spaces ≡ before = length-replicate before 32 in
    let b : length digits ≡ pad = length-replicate pad 48 in
    let c : length end ≡ after = length-replicate after 32 in
    rw
      (
        length-append (spaces ++ sign_text sign ++ digits ++ body) end,
        length-append (spaces ++ sign_text sign ++ digits) body,
        length-append (spaces ++ sign_text sign) digits,
        length-append spaces (sign_text sign),
      )
      (omega arith)

field_text-length :
    (width pad sign : ℕ) (left : Bool) (body : List ℕ)
    → length (field_text width pad sign left body)
      ≡ max width (length body + pad + length (sign_text sign))
field_text-length width pad sign left body = parts-length _ _ pad sign body ∙ ground arith

-- A directive's field is a string: in front spaces up to the width, or behind it with the flag -;
-- then the sign, zeros, and the text, which a precision cuts. The sign of a negative number is -,
-- else + or a space stands there if the flags ask for it. The zeros fill a number up to the
-- precision, or else, with the flag 0 and without -, the sign, the zeros and the number up to the
-- width; otherwise there are none. The field is as long as the longer of the width and what there
-- is to print. The width, the precision and the text are below 2^28, or the width and the
-- precision are not given.
pub print_field_lem :
    (color flags width least precision : ℕ) (d : Converted) (s : Screen)
    → IsWidth width least
    → (int_ltb precision 0 ≡ true) ⊎ IsSmall precision
    → IsText d.chars
    → IsSmall (length d.chars)
    → (body : List ℕ) × (pad : ℕ) × (sign : ℕ) × (body ≡ body_of precision d.chars)
      × IsSign flags d sign
      × IsPad flags least precision d (length body) (length (sign_text sign)) pad
      × (print_field color flags width precision d s
          ≡ put_string color (field_text least pad sign (not (bit_and flags 4 == 0)) body) s)
      × (length (field_text least pad sign (not (bit_and flags 4 == 0)) body)
          ≡ max least (length body + pad + length (sign_text sign)))
unfolding print_field
print_field_lem color flags width least precision d s w p text small =
    let body = body_of precision d.chars in
    let sign = sign_char flags d in
    let len = field_length precision d in
    let pad = zeros_of flags width precision d.numeric len sign in
    let left = not (bit_and flags 4 == 0) in
    let (len_body, len_small, whole) = body_lem precision d text small in
    let (pad_small, digits) =
      zeros_of_lem flags width least precision d.numeric len sign w p len_small in
    let pad_ok : positive pad ≡ pad = positive_lem pad (omega arith) in
    let len_ok : positive len ≡ length body = positive_lem len (omega arith) ∙ len_body in
    let body_ok : take (positive len) d.chars ≡ body = ap (λ n. take n d.chars) len_ok ∙ whole in
    let rest : ℕ = least - (length body + pad + length (sign_text sign)) in
    let rest_ok : positive (padding width len pad sign) ≡ rest =
      padding_lem width least len pad sign w len_small pad_small
      ∙ ap (λ n. least - (n + pad + one_if sign)) len_body
      ∙ ap (λ n. least - (length body + pad + n)) (sym (sign_length sign)) in
    let padded : IsPad flags least precision d (length body) (length (sign_text sign)) pad =
      subst (λ n. IsPad flags least precision d n (length (sign_text sign)) pad) len_body
        (subst (λ n. IsPad flags least precision d len n pad) (sym (sign_length sign))
          (zeros_of-IsPad flags width least precision d len sign w p len_small)) in
    let same : print_field color flags width precision d s
        ≡ put_times (if left then rest else 0) color 32 (
            put_string color body (
              put_times pad color 48
                (put_sign color sign (put_times (if left then 0 else rest) color 32 s)))) =
      λ i. put_times (if left then rest_ok i else 0) color 32 (
        put_string color (body_ok i) (
          put_times (pad_ok i) color 48
            (put_sign color sign (put_times (if left then 0 else rest_ok i) color 32 s)))) in
    (
      body,
      pad,
      sign,
      refl,
      sign_char-IsSign flags d,
      padded,
      same ∙ field_parts _ _ pad color sign body s,
      field_text-length least pad sign left body,
    )
