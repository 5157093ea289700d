-- ===== src/Simpsh/Main/Overrun.antt =====
-- The arrays over all turns of `main`, and the second NULL that --command stores.
use native.Mathlib.Nat.{pow-suc, one-le-pow}
use cs111winter.Base.{
  ℕ, zero, suc, ◌+◌, ◌*◌, ◌^◌, ◌≤◌, ◌<◌, ◌≡◌, ◌≢◌, refl, ap, ◌∙◌, true, ◌&&◌, Option, none, some,
  List, [], ◌∷◌, inl, inr, length, arith, length-append, length-map, drop, ◌++◌,
}
use cs111winter.Simpsh.Args.{Str, Args, atoi, find_args, put_arg, new_args, grow_args}
use cs111winter.Simpsh.Args.Laws.{find_args-Took, words_before, Roomy}
use cs111winter.Simpsh.State.{
  Os, Shell, Flag, append, cloexec, creat, directory, dsync, excl, nofollow, nonblock, rsync, sync,
  trunc, Opt, command, wait, pipe, close, verbose, profile, abort, catch, ignore, default, pause,
  unknown, file_flag, open_file, echo, echo_command, goes_on, say,
}
use cs111winter.Simpsh.Table.{valid_fd}
use cs111winter.Simpsh.Command.{run_command}
use cs111winter.Simpsh.Options.{flag_case, wait_case, flag_length, text_length}
use cs111winter.Simpsh.Main.{option_case, scanned}
use cs111winter.Simpsh.Main.Turn.{Reachable, starts, turns, on_goes_on-some}
use cs111winter.Simpsh.Main.Bounds.{
  HasRoom, InBounds, open_case-HasRoom, pipe_case-HasRoom, close_case-HasRoom, catch_case-HasRoom,
  ignore_case-HasRoom, default_case-HasRoom, abort_case-HasRoom, pause_case-HasRoom,
  command_case-HasRoom, wait_loop-HasRoom, launch-HasRoom, valid-within,
}

-- No flag's text has more than 12 characters.
flag_length-bound : (f : Flag) → flag_length f ≤ 12
flag_length-bound append = omega arith
flag_length-bound cloexec = omega arith
flag_length-bound creat = omega arith
flag_length-bound directory = omega arith
flag_length-bound dsync = omega arith
flag_length-bound excl = omega arith
flag_length-bound nofollow = omega arith
flag_length-bound nonblock = omega arith
flag_length-bound rsync = omega arith
flag_length-bound sync = omega arith
flag_length-bound trunc = omega arith

text_length-length : (fs : List Flag) → text_length fs ≤ 12 * length fs
unfolding text_length
text_length-length [] = omega arith
text_length-length (f ∷ fs) = ground (arith, flag_length-bound f, text_length-length fs)

module _ {W : Type 0} (os : Os W) where
  -- What keeps --close and the file flags in their arrays: a number that is not negative, and at
  -- most 82 texts in oflag_str.
  abbrev pub Fits : Opt → Str → Shell W → Type 0
  Fits (file_flag f) arg s = length s.oflag_str ≤ 82
  Fits close arg s = atoi (some arg) < 2 ^ 31
  Fits command arg s = arg ≡ arg
  Fits wait arg s = arg ≡ arg
  Fits pipe arg s = arg ≡ arg
  Fits abort arg s = arg ≡ arg
  Fits catch arg s = arg ≡ arg
  Fits ignore arg s = arg ≡ arg
  Fits default arg s = arg ≡ arg
  Fits pause arg s = arg ≡ arg
  Fits verbose arg s = arg ≡ arg
  Fits profile arg s = arg ≡ arg
  Fits unknown arg s = arg ≡ arg
  Fits (open_file m) arg s = arg ≡ arg

  fits :
      (opt : Opt) (arg : Str) (s : Shell W)
      → ((f : Flag) → opt ≡ file_flag f → length s.oflag_str ≤ 82)
      → (opt ≡ close → atoi (some arg) < 2 ^ 31)
      → Fits opt arg s
  fits (file_flag f) arg s few low = few f refl
  fits close arg s few low = low refl
  fits command arg s few low = refl
  fits wait arg s few low = refl
  fits pipe arg s few low = refl
  fits abort arg s few low = refl
  fits catch arg s few low = refl
  fits ignore arg s few low = refl
  fits default arg s few low = refl
  fits pause arg s few low = refl
  fits verbose arg s few low = refl
  fits profile arg s few low = refl
  fits unknown arg s few low = refl
  fits (open_file m) arg s few low = refl

  abbrev Kept : (s t : Shell W) → Type 0 → Type 0
  Kept s t P = HasRoom t × (P → t.overruns ≡ s.overruns)

  always : (s t : Shell W) {P : Type 0} → InBounds s t → HasRoom s → Kept s t P
  always s t p h = let (room, same) = p h in (room, λ _. same)

  flag_case-Kept :
      (f : Flag) (s : Shell W) → HasRoom s → Kept s (flag_case f s) (length s.oflag_str ≤ 82)
  flag_case-Kept f s h = (
    ground arith,
    λ few.
        let fits : text_length (s.oflag_str ++ f ∷ []) < 1000 = omega (
          arith,
          text_length-length (s.oflag_str ++ f ∷ []),
          length-append s.oflag_str (f ∷ []),
          few,
        ) in
        ground (arith, fits),
  )

  -- All options but --command.
  option_case-Kept :
      (waits : ℕ) (opt : Opt) (arg : Str) (s t : Shell W)
      → opt ≢ command
      → option_case waits os opt arg s ≡ some (goes_on t)
      → HasRoom s
      → Kept s t (Fits opt arg s)
  unfolding option_case wait_case
  option_case-Kept waits command arg s t n e h = absurd (n refl)
  option_case-Kept waits wait arg s t n e h =
      always s t
        (λ room.
          wait_loop-HasRoom os waits (say (echo [] wait []) s) t (on_goes_on-some _ e)
            (ground arith))
        h
  option_case-Kept waits pipe arg s t n e h = always s t (ground (arith, pipe_case-HasRoom os s)) h
  option_case-Kept waits close arg s t n e h = ground (arith, close_case-HasRoom os arg s h)
  option_case-Kept waits abort arg s t n e h = always s t (abort_case-HasRoom os s t (cc)) h
  option_case-Kept waits catch arg s t n e h =
      always s t (ground (arith, catch_case-HasRoom os arg s)) h
  option_case-Kept waits ignore arg s t n e h =
      always s t (ground (arith, ignore_case-HasRoom os arg s)) h
  option_case-Kept waits default arg s t n e h =
      always s t (ground (arith, default_case-HasRoom os arg s)) h
  option_case-Kept waits pause arg s t n e h = always s t (pause_case-HasRoom os s t (cc)) h
  option_case-Kept waits verbose arg s t n e h = always s t (ground arith) h
  option_case-Kept waits profile arg s t n e h = always s t (ground arith) h
  option_case-Kept waits unknown arg s t n e h = always s t (ground arith) h
  option_case-Kept waits (file_flag f) arg s t n e h = ground (arith, flag_case-Kept f s h)
  option_case-Kept waits (open_file m) arg s t n e h =
      always s t (ground (arith, open_case-HasRoom os m arg s)) h

  option_case-HasRoom :
      (waits : ℕ) (opt : Opt) (arg : Str) (s t : Shell W)
      → option_case waits os opt arg s ≡ some (goes_on t)
      → HasRoom s
      → HasRoom t
  unfolding option_case
  option_case-HasRoom waits command arg s t e h = ground (arith, command_case-HasRoom os arg s h)
  option_case-HasRoom waits opt arg s t e h = (option_case-Kept waits opt arg s t (λ c. cc) e h).0

  Reachable-HasRoom :
      (waits : ℕ) (w : W) (args : List Str) {s : Shell W} → Reachable os waits w args s → HasRoom s
  Reachable-HasRoom waits w args starts = ground arith
  Reachable-HasRoom waits w args (turns {s = s} {t = t} o r found went) =
      let h = Reachable-HasRoom waits w args r in
      let before : HasRoom (scanned os s) = ground arith in
      option_case-HasRoom waits o.0 o.1 (scanned os s) t went before

  -- Whatever options came before, an option that goes on stores nothing outside an allocated array
  -- or oflag_str, and reads nothing in front of fd_array, if it is not --command, if it is a file
  -- flag only while at most 82 texts of flags stand in oflag_str, and if it is --close only with a
  -- number below 2^31, whose int is not negative. After it the entries of fd_array and wait_info
  -- lie in what was allocated, and fd_isPipe is as long as fd_array.
  pub Reachable-InBounds :
      (waits : ℕ) (w : W) (args : List Str) {s : Shell W} (t : Shell W) (opt : Opt) (arg : Str)
      → Reachable os waits w args s
      → opt ≢ command
      → ((f : Flag) → opt ≡ file_flag f → length s.oflag_str ≤ 82)
      → (opt ≡ close → atoi (some arg) < 2 ^ 31)
      → option_case waits os opt arg (scanned os s) ≡ some (goes_on t)
      → HasRoom t × (t.overruns ≡ s.overruns)
  Reachable-InBounds waits w args {s} t opt arg r n few low e =
      let h = Reachable-HasRoom waits w args r in
      let before : HasRoom (scanned os s) = ground arith in
      let (room, stored) = option_case-Kept waits opt arg (scanned os s) t n e before in
      (room, stored (fits opt arg (scanned os s) few low))

-- Between two powers of two.
same_power : (j k : ℕ) → 2 ^ k ≤ 2 ^ j → 2 ^ j < 2 * 2 ^ k → 2 ^ j ≡ 2 ^ k
same_power zero zero l u = refl
same_power zero (suc k) l u = absurd (omega (arith, pow-suc 2 k, one-le-pow k 2))
same_power (suc j) zero l u = absurd (omega (arith, pow-suc 2 j, one-le-pow j 2))
same_power (suc j) (suc k) l u = omega (
  arith,
  pow-suc 2 j,
  pow-suc 2 k,
  same_power j k (omega (arith, pow-suc 2 j, pow-suc 2 k))
      (omega (arith, pow-suc 2 j, pow-suc 2 k)),
)

four_times : (k : ℕ) → 2 ^ (k + 2) ≡ 4 * 2 ^ k
four_times k =
    let twice : k + 2 ≡ suc (suc k) = omega arith in
    rw twice (omega (arith, pow-suc 2 k, pow-suc 2 (suc k)))

-- An array of 4, 8, 16, ... words is full.
full_array :
    (k size : ℕ) (a : Args)
    → length a.entries ≡ 2 ^ (k + 2)
    → Roomy size a
    → a.capacity ≡ length a.entries
full_array k size a full r = elim r.not_much [
  | inl two ↦ absurd (omega (arith, two, full, four_times k, one-le-pow k 2, r.fits))
  | inr less ↦ omega (
    arith,
    full,
    r.known,
    r.is_power,
    same_power r.log_size (k + 2) (omega (arith, full, r.fits, r.is_power))
        (omega (arith, full, less, r.is_power)),
  )
]

-- The first word of the command, stored before findArgs is called.
named-Roomy : (name : Str) → Roomy 2 (put_arg (some name) new_args)
named-Roomy name = record {
  known = refl;
  fits = omega arith;
  at_least = omega arith;
  log_size = 1;
  is_power = refl;
  not_much = inl refl;
}

-- The two stores of NULL into a full array.
null_stores :
    (a : Args)
    → 2 < length a.entries
    → a.capacity ≡ length a.entries
    → (put_arg none (put_arg none (grow_args 2 a))).overruns ≡ a.overruns + 2
null_stores a l c = ground (arith, length-append a.entries (none ∷ []))

module _ {W : Type 0} (os : Os W) where
  -- In tables with room, and with valid descriptors, a command of 4, 8, 16 or any higher power of
  -- two words makes two stores behind the end of args_array.
  pub run_command-overruns :
      (k i o e : ℕ) (name : Str) (s : Shell W)
      → HasRoom s
      → valid_fd i s.fd_array && valid_fd o s.fd_array && valid_fd e s.fd_array ≡ true
      → length (words_before (drop (s.optind + 1) s.argv)) + 1 ≡ 2 ^ (k + 2)
      → (run_command os i o e name s).overruns ≡ s.overruns + 2
  unfolding run_command
  run_command-overruns k i o e name s h v n =
      let took =
        find_args-Took s.argv (s.optind + 1) 2 (put_arg (some name) new_args) (named-Roomy name) in
      let end : ℕ = (find_args s.argv (s.optind + 1) 2 (put_arg (some name) new_args)).0 in
      let found : Args = (find_args s.argv (s.optind + 1) 2 (put_arg (some name) new_args)).1 in
      let terminated : Args = put_arg none (grow_args 2 found) in
      let again : Args = put_arg none terminated in
      let said : Shell W =
        record (say (echo_command i o e found.entries)
          (record s { optind = end; overruns = s.overruns + terminated.overruns })) {
            overruns = s.overruns + again.overruns;
          } in
      let words : List Str = words_before (drop (s.optind + 1) s.argv) in
      let many : length found.entries ≡ 2 ^ (k + 2) =
        ap length took.taken
        ∙ omega (arith, n, length-map words (λ w. let x : Option Str = some w in x)) in
      let stores =
        null_stores found (omega (arith, many, four_times k, one-le-pow k 2))
          (full_array k took.last_size found many took.still_roomy) in
      let within = valid-within os i o e s.fd_array v in
      rw (v, run_command)
        ((launch-HasRoom os i o e s.optind end terminated.entries said within (ground arith)).1
          ∙ omega (arith, stores, took.in_room))
