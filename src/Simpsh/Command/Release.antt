-- ===== src/Simpsh/Command/Release.antt =====
-- The parent of --command: which entries of fd_array it closes and which it forgets.
use cs111winter.Base.{
  ℕ, zero, suc, ◌≡◌, ◌≢◌, Bool, false, ◌||◌, ◌&&◌, Option, none, List, [], ◌∷◌, ◌++◌, ◌==◌,
  if◌then◌else◌, get_or, set, arith,
}
use cs111winter.Simpsh.State.{Os, Shell, Event, closed}
use cs111winter.Simpsh.Command.{release}

pub get_or-set :
    (xs : List (Option ℕ)) (i j : ℕ)
    → get_or (set xs i none) j none ≡ (if j == i then none else get_or xs j none)
get_or-set [] i j = ground arith
get_or-set (x ∷ xs) zero zero = ground arith
get_or-set (x ∷ xs) zero (suc j) = ground arith
get_or-set (x ∷ xs) (suc i) zero = ground arith
get_or-set (x ∷ xs) (suc i) (suc j) = ground (arith, get_or-set xs i j)

-- The closes, the latest first, with the ends that are pipes.
abbrev pub closes : Bool → Option ℕ → List Event
closes b fd = if b then closed fd ∷ [] else []

module _ {W : Type 0} (os : Os W) where
  -- With o and e other than i, the parent closes exactly those of the entries i, o and e that are
  -- ends of pipes, in this order. If one of them is, the entry i is set to -1, and no other entry
  -- changes: also when i is a file that was not closed, and when the closed entry is o or e.
  pub release_lem :
      (i o e : ℕ) (s : Shell W)
      → o ≢ i
      → e ≢ i
      → let p = get_or s.fd_is_pipe i false in
        let q = get_or s.fd_is_pipe o false in
        let r = get_or s.fd_is_pipe e false in
        let t = release os i o e s in
        (t.trace
          ≡ closes r (get_or s.fd_array e none)
            ++ closes q (get_or s.fd_array o none)
            ++ closes p (get_or s.fd_array i none)
            ++ s.trace)
        × ((j : ℕ)
            → get_or t.fd_array j none
              ≡ (if (p || q || r) && (j == i) then none else get_or s.fd_array j none))
  unfolding release
  release_lem i o e s ho he =
      let once : List (Option ℕ) = set s.fd_array i none in
      let twice : List (Option ℕ) = set once i none in
      (
        ground (arith, get_or-set s.fd_array i o, get_or-set s.fd_array i e, get_or-set once i e),
        λ j. ground (arith, get_or-set s.fd_array i j, get_or-set once i j, get_or-set twice i j),
      )
