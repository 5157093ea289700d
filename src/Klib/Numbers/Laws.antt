-- ===== src/Klib/Numbers/Laws.antt =====
-- What the digits of a number say.
use cs111winter.Base.{
  ℕ, zero, suc, ◌+◌, ◌-◌, ◌*◌, ◌/◌, ◌%◌, ◌^◌, ◌≤◌, ◌<◌, ◌≡◌, ◌⊎◌, inl, inr, refl, sym, ◌∙◌, Bool,
  true, List, [], ◌∷◌, arith, ◌==◌, ltb, ◌&&◌, get_or, length, if◌then◌else◌, Bool-cases,
}
use native.Mathlib.Nat.{pow-suc}
use cs111winter.Klib.{strlen}
use cs111winter.Klib.Numbers.{upper_digits, lower_digits, fill_from, fill_numbuf}

-- What a character means as a digit, and a string of digits as a number behind `acc`.
unfoldable pub digit_value : ℕ → ℕ
digit_value c = if ltb c 58 then c - 48 else if ltb c 97 then c - 55 else c - 87

unfoldable pub value_from : (base acc : ℕ) → List ℕ → ℕ
value_from base acc [] = acc
value_from base acc (c ∷ s) = value_from base (acc * base + digit_value c) s

-- The bases of `console_vprintf`, and the tables that have a digit for each value.
abbrev pub IsBase : ℕ → Type 0
IsBase base = (base ≡ 10) ⊎ (base ≡ 16)

pub data IsTable : List ℕ → Type 0 where
  is_upper : IsTable upper_digits
  is_lower : IsTable lower_digits

are_digits : ℕ → List ℕ → Bool
are_digits zero table = true
are_digits (suc n) table =
    let c = get_or table n 0 in (digit_value c == n) && ltb 0 c && are_digits n table

are_digits-at :
    (n : ℕ) (table : List ℕ) (d : ℕ)
    → are_digits n table ≡ true
    → d < n
    → (digit_value (get_or table d 0) ≡ d) × (0 < get_or table d 0)
unfolding are_digits
are_digits-at zero table d h less = absurd (omega arith)
are_digits-at (suc n) table d h less = elim (Bool-cases (d == n)) [
  | inl last ↦ let here : d ≡ n = ground arith in rw here (ground arith)
  | inr more ↦ are_digits-at n table d (ground arith) (ground arith)
]

table_digits : (table : List ℕ) → IsTable table → are_digits 16 table ≡ true
unfolding are_digits digit_value
table_digits _ is_upper = refl
table_digits _ is_lower = refl

table_at :
    (base : ℕ) (table : List ℕ) (val : ℕ)
    → IsBase base
    → IsTable table
    → (digit_value (get_or table (val % base) 0) ≡ val % base) × (0 < get_or table (val % base) 0)
table_at base table val b t =
    are_digits-at 16 table (val % base) (table_digits table t)
      (elim b [ inl e ↦ rw e (omega arith) | inr e ↦ rw e (omega arith) ])

divided :
    (base val : ℕ)
    → IsBase base
    → (val / base * base + val % base ≡ val) × (10 * (val / base) ≤ val)
divided base val (inl e) = rw e (omega arith, omega arith)
divided base val (inr e) = rw e (omega arith, omega arith)

-- A string of characters other than NUL.
pub data IsText : List ℕ → Type 0 where
  end : IsText []
  char : {c : ℕ} {s : List ℕ} → 0 < c → IsText s → IsText (c ∷ s)

pub IsText-strlen : (s : List ℕ) → IsText s → strlen s ≡ length s
unfolding strlen
IsText-strlen _ end = refl
IsText-strlen _ (char {s = s} h rest) = ground (arith, IsText-strlen s rest)

module _ (base : ℕ) (table : List ℕ) (b : IsBase base) (t : IsTable table) where
  digit_step :
      (acc val : ℕ) (buf : List ℕ)
      → acc ≡ val / base
      → value_from base acc (get_or table (val % base) 0 ∷ buf) ≡ value_from base val buf
  unfolding value_from
  digit_step acc val buf e =
      let (digit, _) = table_at base table val b t in
      let (parts, _) = divided base val b in rw (e, digit, parts) refl

  fill_from-value :
      (n val : ℕ) (buf : List ℕ)
      → val < 2 ^ suc n
      → value_from base 0 (fill_from (suc n) val base table buf) ≡ value_from base val buf
  unfolding fill_from
  fill_from-value zero val buf small =
      let tenth = (divided base val b).1 in
      let last : val / base ≡ 0 = omega arith in rw last (digit_step 0 val buf (sym last))
  fill_from-value (suc n) val buf small = elim (Bool-cases (val / base == 0)) [
    | inl last ↦
        let quotient : val / base ≡ 0 = ground arith in
        rw last (digit_step 0 val buf (sym quotient))
    | inr more ↦
        let tenth = (divided base val b).1 in
        rw more (
          fill_from-value n (val / base) _ (omega (arith, pow-suc 2 (suc n)))
          ∙ digit_step (val / base) val buf refl)
  ]

  fill_from-length :
      (n k val : ℕ) (buf : List ℕ)
      → val < 10 ^ suc k
      → length (fill_from n val base table buf) ≤ suc k + length buf
  unfolding fill_from
  fill_from-length zero k val buf small = omega arith
  fill_from-length (suc n) zero val buf small =
      let tenth = (divided base val b).1 in
      let last : val / base ≡ 0 = omega arith in rw last (omega arith)
  fill_from-length (suc n) (suc k) val buf small =
      let tenth = (divided base val b).1 in
      let more =
        fill_from-length n k (val / base) (get_or table (val % base) 0 ∷ buf)
          (omega (arith, pow-suc 10 (suc k))) in
      elim (Bool-cases (val / base == 0)) [
        | inl last ↦ rw last (omega arith)
        | inr others ↦ rw others (omega arith)
      ]

  fill_from-IsText :
      (n val : ℕ) (buf : List ℕ) → IsText buf → IsText (fill_from n val base table buf)
  unfolding fill_from
  fill_from-IsText zero val buf text = text
  fill_from-IsText (suc n) val buf text =
      let more = char (table_at base table val b t).1 text in
      elim (Bool-cases (val / base == 0)) [
        | inl last ↦ rw last more
        | inr others ↦ rw others (fill_from-IsText n (val / base) _ more)
      ]

-- For a base of 10 or 16 and either table fill_numbuf writes the digits of a value of 32 bits:
-- read as a number in that base they give the value back, they hold no NUL, and they are at most
-- 10, which leaves room for the NUL in the 20 bytes of the buffer.
pub fill_numbuf_lem :
    (base : ℕ) (table : List ℕ) (val precision : ℕ)
    → IsBase base
    → IsTable table
    → val < 2 ^ 32
    → (value_from base 0 (fill_numbuf val base table precision) ≡ val)
      × IsText (fill_numbuf val base table precision)
      × (length (fill_numbuf val base table precision) ≤ 10)
unfolding fill_numbuf value_from
fill_numbuf_lem base table val precision b t small =
    elim (Bool-cases ((precision == 0) && (val == 0))) [
      | inl none' ↦ rw none' (ground arith, end, omega arith)
      | inr some' ↦ rw some' (
        fill_from-value base table b t 31 val [] small,
        fill_from-IsText base table b t 32 val [] end,
        fill_from-length base table b t 32 9 val [] (omega arith),
      )
    ]
