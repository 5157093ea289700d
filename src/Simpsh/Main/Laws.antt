-- ===== src/Simpsh/Main/Laws.antt =====
-- What the shell relies on in the calls of `Os`: a measure of what getopt_long has not scanned yet,
-- and the children that have not been waited for.
use cs111winter.Base.{ℕ, suc, ◌≤◌, ◌<◌, ◌≡◌, ◌⊎◌, Option, some, List}
use cs111winter.Simpsh.Args.{Str}
use cs111winter.Simpsh.State.{Os, Opt, Disposition}

-- How a world is looked at: what is left to scan from an index of argv, the number of the children
-- that have not been waited for, and which they are.
pub record View (W : Type 0) : Type 1 where
  pub unscanned : W → List Str → ℕ → ℕ
  pub children : W → ℕ
  pub Alive : W → ℕ → Type 0

-- What a call leaves alone that neither scans nor makes a child.
pub record Keeps {W : Type 0} (view : View W) (v w : W) : Type 0 where
  pub same_unscanned : (args : List Str) (i : ℕ) → view.unscanned w args i ≡ view.unscanned v args i
  pub fewer_children : view.children w ≤ view.children v
  pub still_alive : (pid : ℕ) → view.Alive w pid → view.Alive v pid

pub record Lawful {W : Type 0} (view : View W) (os : Os W) : Type 0 where
  pub unscanned-skip :
      (w : W) (args : List Str) (i j : ℕ)
      → i ≤ j
      → view.unscanned w args j ≤ view.unscanned w args i
  -- an option that is found has been scanned
  pub getopt_long-unscanned :
      (w : W) (args : List Str) (i : ℕ) (o : Opt × Str)
      → (os.getopt_long w args i).1.found ≡ some o
      → view.unscanned
          (os.getopt_long w args i).0
          (os.getopt_long w args i).1.scan_argv
          (os.getopt_long w args i).1.scan_optind
        < view.unscanned w args i
  pub getopt_long-children :
      (w : W) (args : List Str) (i : ℕ)
      → view.children (os.getopt_long w args i).0 ≤ view.children w
  pub getopt_long-Alive :
      (w : W) (args : List Str) (i pid : ℕ)
      → view.Alive (os.getopt_long w args i).0 pid
      → view.Alive w pid
  pub sys_open-Keeps : (w : W) (path : Str) (n : ℕ) → Keeps view w (os.sys_open w path n).0
  pub sys_close-Keeps : (w : W) (fd : Option ℕ) → Keeps view w (os.sys_close w fd)
  pub sys_pipe-Keeps : (w : W) → Keeps view w (os.sys_pipe w).0
  pub sigaction-Keeps : (w : W) (n : ℕ) (d : Disposition) → Keeps view w (os.sigaction w n d).0
  pub raise-Keeps : (w : W) (n : ℕ) → Keeps view w (os.raise w n).0
  pub sys_pause-Keeps : (w : W) → Keeps view w (os.sys_pause w).0
  -- fork makes at most one child, the one whose pid it returns
  pub fork-unscanned :
      (w : W) (args : List Str) (i : ℕ)
      → view.unscanned (os.fork w).0 args i ≡ view.unscanned w args i
  pub fork-children : (w : W) → view.children (os.fork w).0 ≤ suc (view.children w)
  pub fork-Alive :
      (w : W) (pid : ℕ)
      → view.Alive (os.fork w).0 pid
      → ((os.fork w).1 ≡ some pid) ⊎ view.Alive w pid
  -- waitpid returns a child and removes it
  pub waitpid-Keeps : (w : W) → Keeps view w (os.waitpid w).0
  pub waitpid-child :
      (w : W) (pid status : ℕ)
      → (os.waitpid w).1 ≡ some (pid, status)
      → view.Alive w pid × (view.children (os.waitpid w).0 < view.children w)
