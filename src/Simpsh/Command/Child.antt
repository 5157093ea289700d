-- ===== src/Simpsh/Command/Child.antt =====
-- The child of --command: what its standard descriptors are when it calls execvp, and which
-- descriptors it has closed by then.
use cs111winter.Base.{
  ℕ, zero, suc, ◌+◌, ◌≤◌, ◌<◌, ◌≡◌, refl, ap, ◌∙◌, Bool, true, false, Option, none, some, List, [],
  ◌∷◌, ◌++◌, ◌==◌, if◌then◌else◌, length, get_elem?, get_or, Option-cases, inl, inr, arith,
}
use cs111winter.Simpsh.Args.{Str}
use cs111winter.Simpsh.State.{ChildCall, dup2, close_entry, close_outside, execvp}
use cs111winter.Simpsh.Command.{child, child_close, before, when}

-- The open files of a process, by descriptor.
abbrev pub Files : Type 0
Files = ℕ → Option ℕ

-- dup2 and close on them. Nothing is known after a close of what lies outside the entries.
unfoldable pub run_call : ChildCall → Files → Files
run_call (dup2 (some a) b) f j = if j == b then f a else f j
run_call (dup2 none b) f j = f j
run_call (close_entry (some a)) f j = if j == a then none else f j
run_call (close_entry none) f j = f j
run_call close_outside f j = none
run_call (execvp words) f j = f j

unfoldable pub run_calls : List ChildCall → Files → Files
unfolding run_call
run_calls [] f = f
run_calls (c ∷ cs) f = run_calls cs (run_call c f)

run_calls-append :
    (xs ys : List ChildCall) (f : Files) → run_calls (xs ++ ys) f ≡ run_calls ys (run_calls xs f)
unfolding run_calls
run_calls-append [] ys f = refl
run_calls-append (x ∷ xs) ys f = run_calls-append xs ys (run_call x f)

-- The calls that close descriptors above 2, and execvp.
abbrev IsHarmless : ChildCall → Type 0
IsHarmless (close_entry none) = Unit {0}
IsHarmless (close_entry (some n)) = 3 ≤ n
IsHarmless (execvp words) = Unit {0}
IsHarmless _ = ⊥

abbrev AllHarmless : List ChildCall → Type 0
AllHarmless [] = Unit {0}
AllHarmless (c ∷ cs) = IsHarmless c × AllHarmless cs

AllHarmless-append :
    (xs ys : List ChildCall) → AllHarmless xs → AllHarmless ys → AllHarmless (xs ++ ys)
AllHarmless-append [] ys h k = k
AllHarmless-append (x ∷ xs) ys h k = (h.0, AllHarmless-append xs ys h.1 k)

harmless_keeps : (c : ChildCall) (f : Files) (j : ℕ) → IsHarmless c → j < 3 → run_call c f j ≡ f j
unfolding run_call
harmless_keeps (close_entry none) f j h l = refl
harmless_keeps (close_entry (some n)) f j h l = ground arith
harmless_keeps (execvp words) f j h l = refl
harmless_keeps (dup2 a b) f j h l = absurd h
harmless_keeps close_outside f j h l = absurd h

harmless_closed :
    (c : ChildCall) (f : Files) (j : ℕ) → IsHarmless c → f j ≡ none → run_call c f j ≡ none
unfolding run_call
harmless_closed (close_entry none) f j h e = e
harmless_closed (close_entry (some n)) f j h e = ground arith
harmless_closed (execvp words) f j h e = e
harmless_closed (dup2 a b) f j h e = absurd h
harmless_closed close_outside f j h e = absurd h

AllHarmless-keep :
    (cs : List ChildCall) (f : Files) (j : ℕ) → AllHarmless cs → j < 3 → run_calls cs f j ≡ f j
unfolding run_calls
AllHarmless-keep [] f j h l = refl
AllHarmless-keep (c ∷ cs) f j h l =
    AllHarmless-keep cs (run_call c f) j h.1 l ∙ harmless_keeps c f j h.0 l

AllHarmless-closed :
    (cs : List ChildCall) (f : Files) (j : ℕ)
    → AllHarmless cs
    → f j ≡ none
    → run_calls cs f j ≡ none
unfolding run_calls
AllHarmless-closed [] f j h e = e
AllHarmless-closed (c ∷ cs) f j h e =
    AllHarmless-closed cs (run_call c f) j h.1 (harmless_closed c f j h.0 e)

-- What is closed somewhere among such calls is closed at the end.
closed_among :
    (xs ys : List ChildCall) (n : ℕ) (f : Files)
    → AllHarmless ys
    → run_calls (xs ++ close_entry (some n) ∷ ys) f n ≡ none
unfolding run_calls run_call
closed_among xs ys n f h =
    let g : Files = run_calls xs f in
    ap (λ k. k n) (run_calls-append xs (close_entry (some n) ∷ ys) f)
    ∙ AllHarmless-closed ys (run_call (close_entry (some n)) g) n h (ground arith)

-- All entries are descriptors above 2.
abbrev pub AboveStandard : List (Option ℕ) → Type 0
AboveStandard fds = (k n : ℕ) → get_elem? fds k ≡ some (some n) → 3 ≤ n

entry_at :
    (fds : List (Option ℕ)) (k : ℕ) → k < length fds → get_elem? fds k ≡ some (get_or fds k none)
entry_at [] k l = absurd (omega arith)
entry_at (x ∷ xs) zero l = refl
entry_at (x ∷ xs) (suc k) l = entry_at xs k (omega arith)

entry-IsHarmless :
    (fds : List (Option ℕ)) (k : ℕ)
    → AboveStandard fds
    → k < length fds
    → IsHarmless (close_entry (get_or fds k none))
entry-IsHarmless fds k h l = elim (Option-cases (get_or fds k none)) [
  | inl e ↦ rw e tt
  | inr (n, e) ↦ rw e (h k n (entry_at fds k l ∙ ap some e))
]

child_close-IsHarmless :
    (fds : List (Option ℕ)) (k : ℕ)
    → AboveStandard fds
    → k < length fds
    → IsHarmless (child_close fds (some k))
child_close-IsHarmless fds k h l = rw (entry_at fds k l, IsHarmless) (entry-IsHarmless fds k h l)

when-AllHarmless : (b : Bool) (c : ChildCall) → (b ≡ true → IsHarmless c) → AllHarmless (when b c)
when-AllHarmless true c h = (h refl, tt)
when-AllHarmless false c h = tt

-- The other ends of the pipes.
other_ends : List (Option ℕ) → List Bool → (i o e : ℕ) → List ChildCall
other_ends fds pipes i o e =
    when (get_or pipes i false) (child_close fds (some (i + 1)))
    ++ when (get_or pipes o false) (child_close fds (before o))
    ++ when (get_or pipes e false) (child_close fds (before e))

before-IsHarmless :
    (fds : List (Option ℕ)) (k : ℕ)
    → AboveStandard fds
    → k < length fds
    → 0 < k
    → IsHarmless (child_close fds (before k))
before-IsHarmless fds zero h l z = absurd (omega arith)
before-IsHarmless fds (suc k) h l z =
    let same : before (suc k) ≡ some k = ground arith in
    rw (same, IsHarmless) (child_close-IsHarmless fds k h (omega arith))

get_or-at :
    (fds : List (Option ℕ)) (k : ℕ) (x : Option ℕ)
    → get_elem? fds k ≡ some x
    → (get_or fds k none ≡ x) × (k < length fds)
get_or-at [] k x h = cc
get_or-at (y ∷ ys) zero x h = ground arith
get_or-at (y ∷ ys) (suc k) x h = ground (arith, get_or-at ys k x h)

-- The standard descriptors after the three calls of dup2.
dup2_lem :
    (files : Files) (a b c : ℕ)
    → 3 ≤ a
    → 3 ≤ b
    → 3 ≤ c
    → let g =
        run_call
          (dup2 (some c) 2)
          (run_call (dup2 (some b) 1) (run_call (dup2 (some a) 0) files)) in
      (g 0 ≡ files a) × (g 1 ≡ files b) × (g 2 ≡ files c)
unfolding run_call
dup2_lem files a b c ha hb hc = ground arith

module _ (fds : List (Option ℕ)) (pipes : List Bool) (i o e a b c : ℕ) (words : List (Option Str))
    (above : AboveStandard fds) (at_i : get_elem? fds i ≡ some (some a))
    (at_o : get_elem? fds o ≡ some (some b)) (at_e : get_elem? fds e ≡ some (some c))
    (reads : get_or pipes i false ≡ true → i + 1 < length fds)
    (writes : get_or pipes o false ≡ true → 0 < o)
    (writes' : get_or pipes e false ≡ true → 0 < e) where
  other_ends-AllHarmless : AllHarmless (other_ends fds pipes i o e)
  unfolding other_ends
  other_ends-AllHarmless =
      AllHarmless-append (w1 ++ w2) w3
        (AllHarmless-append w1 w2
          (when-AllHarmless _ _ (λ p. child_close-IsHarmless fds (i + 1) above (reads p)))
          (when-AllHarmless _ _
            (λ p. before-IsHarmless fds o above (get_or-at fds o (some b) at_o).1 (writes p))))
        (when-AllHarmless _ _
          (λ p. before-IsHarmless fds e above (get_or-at fds e (some c) at_e).1 (writes' p)))
    where
      w1 : List ChildCall
      w1 = when (get_or pipes i false) (child_close fds (some (i + 1)))

      w2 : List ChildCall
      w2 = when (get_or pipes o false) (child_close fds (before o))

      w3 : List ChildCall
      w3 = when (get_or pipes e false) (child_close fds (before e))

  -- If all entries of fd_array are descriptors above 2, a pipe end that is read has an entry
  -- behind it, and one that is written an entry in front of it, then at execvp the child's
  -- standard input, output and error are the files of the entries i, o and e, and it has closed
  -- these three descriptors.
  pub child_lem :
      (files : Files)
      → let f = run_calls (child fds pipes i o e words) files in
        (f 0 ≡ files a)
        × (f 1 ≡ files b)
        × (f 2 ≡ files c)
        × (f a ≡ none)
        × (f b ≡ none)
        × (f c ≡ none)
  unfolding child run_calls other_ends
  child_lem files =
      let ha = above i a at_i in
      let hb = above o b at_o in
      let hc = above e c at_e in
      let ends : List ChildCall = other_ends fds pipes i o e in
      let last : List ChildCall =
        close_entry (some a) ∷ close_entry (some b) ∷ close_entry (some c) ∷ execvp words ∷ [] in
      let g : Files =
        run_call (dup2 (some c) 2)
          (run_call (dup2 (some b) 1) (run_call (dup2 (some a) 0) files)) in
      let h : Files = run_calls ends g in
      let kept : (j : ℕ) → j < 3 → run_calls (ends ++ last) g j ≡ g j = λ j.
        AllHarmless-keep (ends ++ last) g j
          (AllHarmless-append ends last other_ends-AllHarmless (ha, (hb, (hc, (tt, tt))))) in
      let std = dup2_lem files a b c ha hb hc in
      let after : (j : ℕ) → run_calls (ends ++ last) g j ≡ run_calls last h j =
        λ j. ap (λ k. k j) (run_calls-append ends last g) in
      rw
        (
          (get_or-at fds i (some a) at_i).0,
          (get_or-at fds o (some b) at_o).0,
          (get_or-at fds e (some c) at_e).0,
        )
        (
          kept 0 (omega arith) ∙ std.0,
          kept 1 (omega arith) ∙ std.1,
          kept 2 (omega arith) ∙ std.2,
          after a
              ∙ closed_among [] (close_entry (some b) ∷ close_entry (some c) ∷ execvp words ∷ []) a
                  h (hb, (hc, (tt, tt))),
          after b
              ∙ closed_among [] (close_entry (some c) ∷ execvp words ∷ []) b
                  (run_call (close_entry (some a)) h) (hc, (tt, tt)),
          after c
              ∙ closed_among [] (execvp words ∷ []) c
                  (run_call (close_entry (some b)) (run_call (close_entry (some a)) h)) (tt, tt),
        )
