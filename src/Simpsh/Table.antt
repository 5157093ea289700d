-- ===== src/Simpsh/Table.antt =====
-- lab1-sunnieKim/main.c: the tables of descriptors and of commands. validFd, the stores that append
-- to fd_array, fd_isPipe and wait_info with their realloc, the close of one entry, and the loop
-- that closes all of them at the end.
use cs111winter.Base.{
  ℕ, zero, suc, ◌+◌, ◌*◌, ◌^◌, Bool, true, false, Option, none, some, List, [], ◌∷◌, ◌++◌, ltb, leb,
  ◌==◌, if◌then◌else◌, length, get_or, set,
}
use cs111winter.Simpsh.State.{Os, Shell, closed, WaitInfo}

abbrev pub is_open : Option ℕ → Bool
is_open none = false
is_open (some fd) = true

-- `validFd`. The table has fewer than 2^31 entries. The source lets a negative number pass its first
-- test and reads in front of the table; what lies there is taken for -1 here, and `refuse_fd` counts
-- the read.
abbrev pub valid_fd : ℕ → List (Option ℕ) → Bool
valid_fd fd fds = if leb (length fds) fd then false else is_open (get_or fds fd none)

module _ {W : Type 0} where
  -- `if (fd_array_cur + n >= fd_array_size)` double the two arrays: open has n = 0, pipe n = 1.
  abbrev pub grow_fds : ℕ → Shell W → Shell W
  grow_fds n s = record s {
    fd_array_size =
        if leb s.fd_array_size (length s.fd_array + n)
        then s.fd_array_size * 2
        else s.fd_array_size;
  }

  -- `fd_array[fd_array_cur] = fd; fd_isPipe[fd_array_cur] = p; fd_array_cur++`
  abbrev pub put_fd : Option ℕ → Bool → Shell W → Shell W
  put_fd fd p s = record s {
    fd_array = s.fd_array ++ fd ∷ [];
    fd_is_pipe = s.fd_is_pipe ++ p ∷ [];
    overruns = if ltb (length s.fd_array) s.fd_array_size then s.overruns else s.overruns + 1;
  }

  -- Growing wait_info and appending to it.
  abbrev pub put_wait_info : WaitInfo → Shell W → Shell W
  put_wait_info info s =
      let size : ℕ =
        if length s.wait_info == s.wait_info_size then s.wait_info_size * 2 else s.wait_info_size in
      record s {
        wait_info = s.wait_info ++ info ∷ [];
        wait_info_size = size;
        overruns = if ltb (length s.wait_info) size then s.overruns else s.overruns + 1;
      }

  -- `close(fd_array[k])`
  abbrev pub close_fd : Os W → ℕ → Shell W → Shell W
  close_fd os k s = record s {
    world = os.sys_close s.world (get_or s.fd_array k none);
    trace = closed (get_or s.fd_array k none) ∷ s.trace;
  }

  -- `fd_array[k] = -1`
  abbrev pub forget_fd : ℕ → Shell W → Shell W
  forget_fd k s = record s {
    fd_array = set s.fd_array k none;
    overruns = if ltb k s.fd_array_size then s.overruns else s.overruns + 1;
  }

  -- What `validFd` does where it refuses number `k`: a negative one it looks up in front of the table.
  abbrev pub refuse_fd : ℕ → Shell W → Shell W
  refuse_fd k s = record s { overruns = if leb (2 ^ 31) k then s.overruns + 1 else s.overruns }

  -- The last loop of `main`, with `n` entries to go.
  unfoldable pub close_all : Os W → ℕ → Shell W → Shell W
  close_all os zero s = s
  close_all os (suc n) s =
      close_all os n (if is_open (get_or s.fd_array n none) then close_fd os n s else s)
