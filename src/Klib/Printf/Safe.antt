-- ===== src/Klib/Printf/Safe.antt =====
-- `console_vprintf` ends, and keeps to the console.
use cs111winter.Base.{
  zero, suc, ◌+◌, ℕ, suc, ◌<◌, ◌≡◌, ◌⊎◌, inl, inr, Bool, true, false, if◌then◌else◌, refl, Option,
  none, some, List, [], ◌∷◌, arith, Bool-cases, ◌==◌, length,
}
use cs111winter.Klib.Format.{take_width, Arg, Parsed, take_flags, take_precision}
use cs111winter.Klib.Format.Lengths.{
  Shrinks, failed, shrinks, take_flags-length, take_width-Shrinks, take_precision-Shrinks,
}
use cs111winter.Klib.Console.{Screen}
use cs111winter.Klib.Console.Bounds.{
  IsOnConsole, Stays, Stays-refl, Stays-trans, console_putc_lem, put_times-Stays, put_string-Stays,
}
use cs111winter.Klib.Printf.{
  convert, console_vprintf, Converted, Conversion, field, plain, recolor, Step, stop, undefined,
  next, Printed, done, bad_args, finish, convert_next, print_field, put_sign, directive, print_step,
  print_from,
}

put_sign-Stays : (color sign : ℕ) (s : Screen) → IsOnConsole s → Stays s (put_sign color sign s)
put_sign-Stays color sign s on = elim (Bool-cases (sign == 0)) [
  | inl e ↦ rw e (Stays-refl s on)
  | inr e ↦ rw e (console_putc_lem color sign s on).0
]

print_field-Stays :
    (color flags width precision : ℕ) (d : Converted) (s : Screen)
    → IsOnConsole s
    → Stays s (print_field color flags width precision d s)
unfolding print_field
print_field-Stays color flags width precision d s on =
    let a = put_times-Stays _ color 32 s on in
    let b = put_sign-Stays color _ _ a.on in
    let c = put_times-Stays _ color 48 _ b.on in
    let e = put_string-Stays color _ _ c.on in
    Stays-trans a
      (Stays-trans b (Stays-trans c (Stays-trans e (put_times-Stays _ color 32 _ e.on))))

-- A step that prints on the console and leaves less than `n` of the format.
data Advances (n : ℕ) (s : Screen) : Step → Type 0 where
  stops : {s' : Screen} → Stays s s' → Advances n s (stop s')
  fails : Advances n s undefined
  goes_on :
      {color : ℕ} {f : List ℕ} {args : List Arg} {s' : Screen}
      → length f < n
      → Stays s s'
      → Advances n s (next color f args s')

if-Advances :
    (n : ℕ) (s : Screen) (b : Bool) {x y : Step}
    → Advances n s x
    → Advances n s y
    → Advances n s (if b then x else y)
if-Advances n s true hx hy = hx
if-Advances n s false hx hy = hy

finish-Advances :
    (n color flags width precision : ℕ) (f : List ℕ) (o : Option Conversion) (s : Screen)
    → length f < n
    → IsOnConsole s
    → Advances n s (finish color flags width precision f o s)
finish-Advances n color flags width precision f none s h on = fails
finish-Advances n color flags width precision f (some (recolor color' args)) s h on =
    goes_on h (Stays-refl s on)
finish-Advances n color flags width precision f (some (field d args)) s h on =
    goes_on h (print_field-Stays color flags width precision d s on)

convert_next-Advances :
    (n color flags width precision : ℕ) (f : List ℕ) (args : List Arg) (s : Screen)
    → length f < n
    → IsOnConsole s
    → Advances n s (convert_next color flags width precision f args s)
unfolding convert_next
convert_next-Advances n color flags width precision [] args s h on =
    finish-Advances n color flags width precision [] (some (field (plain (37 ∷ [])) args)) s h on
convert_next-Advances n color flags width precision (c ∷ f) args s h on =
    if-Advances n s (c == 0)
      (finish-Advances n color flags width precision [] (some (field (plain (37 ∷ [])) args)) s
        (omega arith) on)
      (finish-Advances n color flags width precision f (convert c precision args) s (omega arith)
        on)

-- The rest of a directive behind its width, and behind its flags.
abbrev behind_width : (color flags width : ℕ) → Option Parsed → Screen → Step
behind_width color flags width o s = elim o [
  | none ↦ undefined
  | some p ↦ convert_next color flags width p.number p.format p.args s
]

behind_width-Advances :
    (n m color flags width : ℕ) (o : Option Parsed) (s : Screen)
    → Shrinks m o
    → m < n
    → IsOnConsole s
    → Advances n s (behind_width color flags width o s)
behind_width-Advances n m color flags width _ s failed h on = fails
behind_width-Advances n m color flags width _ s (shrinks {p = p} k) h on =
    convert_next-Advances n color flags width p.number p.format p.args s (omega arith) on

behind_flags-Advances :
    (n m color flags : ℕ) (o : Option Parsed) (s : Screen)
    → Shrinks m o
    → m < n
    → IsOnConsole s
    → Advances n s (elim o [
      | none ↦ undefined
      | some w ↦ behind_width color flags w.number (take_precision w.format w.args) s
    ])
behind_flags-Advances n m color flags _ s failed h on = fails
behind_flags-Advances n m color flags _ s (shrinks {p = w} k) h on =
    behind_width-Advances n (length w.format) color flags w.number _ s
      (take_precision-Shrinks w.format w.args) (omega arith) on

print_step-Advances :
    (color : ℕ) (f : List ℕ) (args : List Arg) (s : Screen)
    → IsOnConsole s
    → Advances (length f) s (print_step color f args s)
unfolding print_step directive
print_step-Advances color [] args s on = stops (Stays-refl s on)
print_step-Advances color (c ∷ f) args s on =
    let (flags, f') = take_flags 0 f in
    if-Advances _ s (c == 0) (stops (Stays-refl s on)) (
      if-Advances _ s (c == 37)
        (behind_flags-Advances (suc (length f)) (length f') color flags (take_width f' args) s
          (take_width-Shrinks f' args) (omega (arith, take_flags-length 0 f)) on)
        (goes_on (omega arith) (console_putc_lem color c s on).0))

-- The outcome of a call from this screen.
abbrev pub Outcome : Screen → Printed → Type 0
Outcome s r = ((s' : Screen) × (r ≡ done s') × Stays s s') ⊎ (r ≡ bad_args)

after_step :
    (m n : ℕ) (s : Screen) (step : Step)
    → Advances m s step
    → ((color : ℕ) (f : List ℕ) (args : List Arg) (s' : Screen)
        → length f < m
        → IsOnConsole s'
        → Outcome s' (print_from n color f args s'))
    → Outcome s (elim step [
      | stop s' ↦ done s'
      | undefined ↦ bad_args
      | next color f args s' ↦ print_from n color f args s'
    ])
after_step m n s _ (stops stays) go = inl (_, refl, stays)
after_step m n s _ fails go = inr refl
after_step m n s _ (goes_on {color} {f} {args} {s'} h stays) go =
    elim (go color f args s' h stays.on) [
      | inl (s'', e, more) ↦ inl (s'', e, Stays-trans stays more)
      | inr e ↦ inr e
    ]

print_from-Outcome :
    (n color : ℕ) (f : List ℕ) (args : List Arg) (s : Screen)
    → length f < n
    → IsOnConsole s
    → Outcome s (print_from n color f args s)
unfolding print_from
print_from-Outcome zero color f args s enough on = absurd (omega arith)
print_from-Outcome (suc n) color f args s enough on =
    after_step (length f) n s (print_step color f args s) (print_step-Advances color f args s on)
      (λ color' f' args' s' h on'. print_from-Outcome n color' f' args' s' (omega arith) on')

-- From a cursor on the console console_vprintf ends for every format and all arguments, with the
-- fuel of one round for each character and one more: the cursor is on the console again and no
-- cell outside it has changed, unless the format asks for an argument that is missing or of the
-- other kind.
pub console_vprintf_lem :
    (color : ℕ) (format : List ℕ) (args : List Arg) (s : Screen)
    → IsOnConsole s
    → Outcome s (console_vprintf color format args s)
unfolding console_vprintf
console_vprintf_lem color format args s on =
    print_from-Outcome (length format + 1) color format args s (omega arith) on
