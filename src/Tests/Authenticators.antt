-- ===== src/Tests/Authenticators.antt =====
-- The authenticators, at concrete inputs.
use webfuse.Base.{
  ℕ, ◌+◌, ◌-◌, ◌/◌, ◌%◌, ◌≡◌, refl, Bool, ◌==◌, not, ◌&&◌, ◌||◌, Bool-cases, inl, inr, true, false,
  none, arith,
}
use webfuse.Base.Int.{ℤ, pos, negsuc, neg, is_zero}
use webfuse.Base.Text.{codes}
use webfuse.Message.Bytes.{Bytes}
use webfuse.Authenticator
use webfuse.Authenticator.{Process, Outcome, returned, same_pid}
use webfuse.Authenticator.Laws
use webfuse.Authenticator.Laws.{IsProcess, Accepted}
use webfuse.Pam
use webfuse.Pam.{Pam, Credentials, Style, conversation}
use webfuse.Pam.Laws.{IsPam, answer}

-- The state is whether the descriptors 3 and 4 are open; the program that is asked accepts.
abbrev Pipe : Type 0
Pipe = Bool × Bool

abbrev is_open : ℤ → Pipe → Bool
is_open fd (three, four) = (same_pid fd (pos 3) && three) || (same_pid fd (pos 4) && four)

-- A pipe is made only where both are free.
abbrev make_pipe : Pipe → ℤ × ℤ × ℤ × Pipe
make_pipe (false, false) = (pos 0, pos 3, pos 4, (true, true))
make_pipe (true, four) = (neg 1, pos 0, pos 0, (true, four))
make_pipe (false, true) = (neg 1, pos 0, pos 0, (false, true))

abbrev shut : ℤ → Pipe → Pipe
shut fd (three, four) = (not (same_pid fd (pos 3)) && three, not (same_pid fd (pos 4)) && four)

abbrev process : Process Pipe
process = record {
  pipe = make_pipe;
  fork = λ w. (pos 7, w);
  close = shut;
  dup2 = λ fd target w. w;
  closefrom = λ fd w. w;
  open_null = λ w. w;
  execl = λ path name w. none;
  write = λ fd token w. w;
  waitpid = λ pid w. (pid, 0, w);
  wexitstatus = λ status. status / 256 % 256;
}

both_ends :
    (a b : Bool) → ((a && true) || (b && true)) ≡ (((a && false) || (b && false)) || (a || b))
both_ends true true = refl
both_ends true false = refl
both_ends false true = refl
both_ends false false = refl

-- Closing 3 and 4 in whether they are open.
closed_one :
    (fd closed : ℤ) (w : Pipe)
    → is_open fd (shut closed w) ≡ (not (same_pid fd closed) && is_open fd w)
unfolding same_pid
closed_one (negsuc n) (pos m) (three, four) = refl
closed_one (negsuc n) (negsuc m) (three, four) = elim (Bool-cases (n == m)) [
  | inl e ↦ rw (e) refl
  | inr e ↦ rw (e) refl
]
closed_one (pos n) (negsuc m) (three, four) = refl
closed_one (pos n) (pos m) (true, true) = ground arith
closed_one (pos n) (pos m) (true, false) = ground arith
closed_one (pos n) (pos m) (false, true) = ground arith
closed_one (pos n) (pos m) (false, false) = ground arith

piped :
    (fd : ℤ) (w : Pipe)
    → is_zero (make_pipe w).0 ≡ true
    → is_open fd (make_pipe w).3
      ≡ (is_open fd w || (same_pid fd (make_pipe w).1 || same_pid fd (make_pipe w).2))
piped fd (false, false) h = both_ends (same_pid fd (pos 3)) (same_pid fd (pos 4))
piped fd (true, four) h = cc h
piped fd (false, true) h = cc h

pipe_is_new :
    (w : Pipe)
    → is_zero (make_pipe w).0 ≡ true
    → (is_open (make_pipe w).1 w ≡ false) × (is_open (make_pipe w).2 w ≡ false)
unfolding same_pid
pipe_is_new (false, false) h = (refl, refl)
pipe_is_new (true, four) h = cc h
pipe_is_new (false, true) h = cc h

pipe_left :
    (fd : ℤ) (w : Pipe)
    → is_zero (make_pipe w).0 ≡ false
    → is_open fd (make_pipe w).3 ≡ is_open fd w
pipe_left fd (false, false) h = cc h
pipe_left fd (true, four) h = refl
pipe_left fd (false, true) h = refl

process-IsProcess : IsProcess process is_open
process-IsProcess = record {
  pipe_opens = piped;
  pipe_new = pipe_is_new;
  pipe_fails = pipe_left;
  fork_keeps = λ fd w. refl;
  close_closes = closed_one;
  write_keeps = λ fd target token w. refl;
  waitpid_keeps = λ fd pid w. refl;
}

asked :
    Authenticator.authenticate process (codes "auth") (codes "t") (false, false)
    ≡ returned true (false, false)
unfolding Authenticator.authenticate Authenticator.parent Authenticator.same_pid
asked = refl

authenticate-accepts_example : Accepted process (codes "auth") (codes "t") (false, false)
authenticate-accepts_example =
    Authenticator.Laws.authenticate-accepts process (codes "auth") (codes "t") (false, false)
      (false, false) asked

authenticate-descriptors_example : is_open (pos 4) (false, false) ≡ false
unfolding same_pid
authenticate-descriptors_example =
    Authenticator.Laws.authenticate-descriptors process (codes "auth") (codes "t") (false, false)
      is_open true (false, false) (pos 4) process-IsProcess asked

-- The state is the number of open sessions; everyone is let in.
abbrev lenient : Pam ℕ
lenient = record {
  pam_start = λ name conv w. (true, w + 1);
  pam_set_user = λ user w. w;
  pam_authenticate = λ w. (true, w);
  pam_acct_mgmt = λ w. (true, w);
  pam_end = λ w. w - 1;
}

abbrev open_sessions : ℕ → ℕ
open_sessions w = w

lenient-IsPam : IsPam lenient open_sessions
lenient-IsPam = record {
  opens = λ name conv w. refl;
  set_user_keeps = λ user w. refl;
  authenticate_keeps = λ w. refl;
  acct_mgmt_keeps = λ w. refl;
  closes = λ w n e. omega (arith, e);
}

authenticate-sessions_example : (Pam.authenticate lenient (codes "u") (codes "p") 2).1 ≡ 2
authenticate-sessions_example =
    Pam.Laws.authenticate-sessions lenient open_sessions lenient-IsPam (codes "u") (codes "p") 2

-- Base64 is left out: the token is the plain text.
abbrev plain : Bytes → Bytes
plain token = token
