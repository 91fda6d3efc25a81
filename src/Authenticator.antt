-- ===== src/Authenticator.antt =====
-- `authenticator`: src/webfuse/util/authenticator.cpp, which asks another program. The system's calls are
-- a parameter.
pub mod Laws
use webfuse.Base.{ℕ, zero, List, Bool, true, false, Option, none, some, ◌==◌, if◌then◌else◌}
use webfuse.Base.Int.{ℤ, pos, negsuc, is_zero, is_positive}
use webfuse.Base.Text.{codes, c_string}
use webfuse.Message.Bytes.{Bytes}

-- The calls on the state `W` of the system. `pipe` gives its two descriptors, `waitpid` the status.
-- `execl` returns if it fails.
pub record Process (W : Type 0) : Type 0 where
  pub pipe : W → ℤ × ℤ × ℤ × W
  pub fork : W → ℤ × W
  pub close : ℤ → W → W
  pub dup2 : ℤ → ℕ → W → W
  pub closefrom : ℕ → W → W
  pub open_null : W → W
  pub execl : Bytes → Bytes → W → Option W
  pub write : ℤ → Bytes → W → W
  pub waitpid : ℤ → W → ℤ × ℕ × W
  pub wexitstatus : ℕ → ℕ

-- How a call of `authenticate` ends: it returns, its process became another program, or it ended with
-- `EXIT_FAILURE`.
pub data Outcome (W : Type 0) : Type 0 where
  returned : Bool → W → Outcome W
  replaced : Outcome W
  exited : W → Outcome W

-- `==` of `pid_t`
unfoldable pub same_pid : ℤ → ℤ → Bool
same_pid (pos m) (pos n) = m == n
same_pid (negsuc m) (negsuc n) = m == n
same_pid _ _ = false

module _ {W : Type 0} (sys : Process W) (app : Bytes) where
  -- The child, which never returns.
  unfoldable pub child : ℤ → W → Outcome W
  child read_end w =
      let w1 = sys.dup2 read_end 0 (sys.close (pos 0) w) in
      let w2 = sys.dup2 (pos 1) 2 (sys.open_null (sys.closefrom 1 w1)) in
      elim (sys.execl (c_string app) (c_string app) w2) [ none ↦ replaced | some w3 ↦ exited w3 ]

  unfoldable pub parent : Bytes → ℤ → ℤ → ℤ → W → Outcome W
  parent token read_end write_end pid w =
      let w1 = sys.close write_end (sys.write write_end token w) in
      let (rc, status, w2) = sys.waitpid pid w1 in
      let exit_status = if same_pid rc pid then sys.wexitstatus status else 1 in
      returned (exit_status == 0) (sys.close read_end w2)

  unfoldable pub authenticate : Bytes → W → Outcome W
  authenticate token w =
      let (rc, read_end, write_end, w1) = sys.pipe w in
      let (pid, w2) = sys.fork w1 in
      if is_zero rc
      then (if is_zero pid
          then child read_end w2
          else if is_positive pid
          then parent token read_end write_end pid w2
          else returned false w2)
      else returned false w1
