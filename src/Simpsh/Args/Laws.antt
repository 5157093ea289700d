-- ===== src/Simpsh/Args/Laws.antt =====
-- findArgs: the words it takes, the index it returns, and the room in the array it grows.
use mathlib.Core.List.{map, append-nil, append_assoc}
use native.Mathlib.Nat.{pow-suc}
use cs111winter.Base.{
  zero, true, ℕ, suc, ◌+◌, ◌*◌, ◌^◌, ◌≤◌, ◌<◌, ◌≡◌, refl, sym, ap, ◌∙◌, ◌⊎◌, inl, inr, some, List,
  [], ◌∷◌, ◌++◌, ◌==◌, if◌then◌else◌, length, drop, length-append, Bool-cases, arith,
}
use cs111winter.Simpsh.Args.{
  Str, Args, new_args, put_arg, grow_args, is_option, find_args_from, find_args,
}

-- The words up to the next option.
unfoldable pub words_before : List Str → List Str
words_before [] = []
words_before (w ∷ ws) = let rest = words_before ws in if is_option w then [] else w ∷ rest

-- An array with room for what is in it, whose capacity is a power of two and not larger than the
-- doubling has made it.
pub record Roomy (size : ℕ) (a : Args) : Type 0 where
  pub known : a.capacity ≡ size
  pub fits : length a.entries ≤ size
  pub at_least : 2 ≤ size
  pub log_size : ℕ
  pub is_power : size ≡ 2 ^ log_size
  pub not_much : (size ≡ 2) ⊎ (size < 2 * length a.entries)

pub new_args-Roomy : Roomy 2 new_args
new_args-Roomy = record {
  known = refl;
  fits = omega arith;
  at_least = omega arith;
  log_size = 1;
  is_power = refl;
  not_much = inl refl;
}

next_size : ℕ → Args → ℕ
next_size size a = if length a.entries == size then size * 2 else size

put-Roomy :
    (w : Str) (size : ℕ) (a : Args)
    → Roomy size a
    → Roomy (next_size size a) (put_arg (some w) (grow_args size a))
unfolding next_size
put-Roomy w size a r = elim (Bool-cases (length a.entries == size)) [
  | inl e ↦
      let full : length a.entries ≡ size = ground arith in
      rw e (record {
        known = refl;
        fits = omega (arith, r.at_least, full, length-append a.entries (some w ∷ []));
        at_least = omega (arith, r.at_least);
        log_size = suc r.log_size;
        is_power = omega (arith, r.is_power, pow-suc 2 r.log_size);
        not_much = inr (omega (arith, full, length-append a.entries (some w ∷ [])));
      })
  | inr e ↦
      let room : length a.entries < size = ground (arith, r.fits) in
      rw e (record {
        known = r.known;
        fits = omega (arith, room, length-append a.entries (some w ∷ []));
        at_least = r.at_least;
        log_size = r.log_size;
        is_power = r.is_power;
        not_much = elim r.not_much [
          | inl two ↦ inl two
          | inr less ↦ inr (omega (arith, less, length-append a.entries (some w ∷ [])))
        ];
      })
]

put-overruns :
    (w : Str) (size : ℕ) (a : Args)
    → Roomy size a
    → (put_arg (some w) (grow_args size a)).overruns ≡ a.overruns
put-overruns w size a r = ground (arith, r.known, r.fits, r.at_least)

put-entries :
    (w : Str) (size : ℕ) (a : Args)
    → (put_arg (some w) (grow_args size a)).entries ≡ a.entries ++ some w ∷ []
put-entries w size a = ground arith

-- The result of findArgs, against the words up to the next option.
pub record Took (ws : List Str) (index : ℕ) (a : Args) (r : ℕ × Args) : Type 0 where
  pub moved : r.0 ≡ index + length (words_before ws)
  pub taken : r.1.entries ≡ a.entries ++ map some (words_before ws)
  pub in_room : r.1.overruns ≡ a.overruns
  pub last_size : ℕ
  pub still_roomy : Roomy last_size r.1

find_args_from_lem :
    (ws : List Str) (index size : ℕ) (a : Args)
    → Roomy size a
    → Took ws index a (find_args_from ws index size a)
unfolding find_args_from words_before next_size
find_args_from_lem [] index size a r = record {
  moved = omega arith;
  taken = sym (append-nil a.entries);
  in_room = refl;
  last_size = size;
  still_roomy = r;
}
find_args_from_lem (w ∷ ws) index size a r = elim (Bool-cases (is_option w)) [
  | inl e ↦
      rw (e, find_args_from)
        (record {
          moved = rw (e, words_before) (omega arith);
          taken = rw (e, words_before) (sym (append-nil a.entries));
          in_room = refl;
          last_size = size;
          still_roomy = r;
        })
  | inr e ↦
      let rest =
        find_args_from_lem ws (index + 1) (next_size size a) (put_arg (some w) (grow_args size a))
          (put-Roomy w size a r) in
      rw (e, find_args_from)
        (record {
          moved = rw (e, words_before) (omega (arith, rest.moved));
          taken =
              rw (e, words_before)
                (rest.taken
                  ∙ ap (λ l. l ++ map some (words_before ws)) (put-entries w size a)
                  ∙ append_assoc a.entries (some w ∷ []) (map some (words_before ws)));
          in_room = rest.in_room ∙ put-overruns w size a r;
          last_size = rest.last_size;
          still_roomy = rest.still_roomy;
        })
]

pub find_args-Took :
    (argv : List Str) (index size : ℕ) (a : Args)
    → Roomy size a
    → Took (drop index argv) index a (find_args argv index size a)
unfolding find_args
find_args-Took argv index size a r = find_args_from_lem (drop index argv) index size a r

split_at_option : (ws : List Str) → ws ≡ words_before ws ++ drop (length (words_before ws)) ws
unfolding words_before
split_at_option [] = refl
split_at_option (w ∷ ws) = elim (Bool-cases (is_option w)) [
  | inl e ↦ rw (e, words_before) refl
  | inr e ↦ rw (e, words_before) (ap (λ l. w ∷ l) (split_at_option ws))
]

stops_at_option :
    (ws : List Str) (w : Str) (rest : List Str)
    → drop (length (words_before ws)) ws ≡ w ∷ rest
    → is_option w ≡ true
unfolding words_before
stops_at_option [] w rest h = cc
stops_at_option (v ∷ vs) w rest h = elim (Bool-cases (is_option v)) [
  | inl e ↦
      let same : v ∷ vs ≡ w ∷ rest = rw (e, words_before) at h in
      let head : v ≡ w = cc in rw (← head) e
  | inr e ↦ stops_at_option vs w rest (rw (e, words_before) at h)
]

drop-nil : (n : ℕ) → drop n [] ≡ (let none_left : List Str = [] in none_left)
drop-nil zero = refl
drop-nil (suc n) = refl

drop-drop : (n m : ℕ) (xs : List Str) → drop n (drop m xs) ≡ drop (m + n) xs
drop-drop n zero xs = ap (λ k. drop k xs) (omega arith)
drop-drop n (suc m) [] =
    let more : suc m + n ≡ suc (m + n) = omega arith in drop-nil n ∙ rw more refl
drop-drop n (suc m) (x ∷ xs) =
    let more : suc m + n ≡ suc (m + n) = omega arith in rw more (drop-drop n m xs)

-- What is left after findArgs.
left_after :
    (argv : List Str) (index : ℕ)
    → drop (find_args argv index 2 new_args).0 argv
      ≡ drop (length (words_before (drop index argv))) (drop index argv)
left_after argv index =
    let n : ℕ = length (words_before (drop index argv)) in
    ap (λ k. drop k argv) (find_args-Took argv index 2 new_args new_args-Roomy).moved
    ∙ sym (drop-drop n index argv)

pub find_args_lem :
    (argv : List Str) (index : ℕ)
    → let r = find_args argv index 2 new_args in
      let ws = words_before (drop index argv) in
      (r.1.entries ≡ map some ws)
      × (r.1.overruns ≡ 0)
      × (drop index argv ≡ ws ++ drop r.0 argv)
      × ((w : Str) (rest : List Str) → drop r.0 argv ≡ w ∷ rest → is_option w ≡ true)
find_args_lem argv index =
    let took = find_args-Took argv index 2 new_args new_args-Roomy in
    let ws : List Str = words_before (drop index argv) in
    (
      took.taken,
      took.in_room,
      split_at_option (drop index argv) ∙ ap (λ l. ws ++ l) (sym (left_after argv index)),
      λ w rest h. stops_at_option (drop index argv) w rest (sym (left_after argv index) ∙ h),
    )
