-- ===== src/Authenticator/Laws.antt =====
-- When a program that is asked accepts, and what a call leaves open.
use webfuse.Base.Text.{c_string}
use webfuse.Base.{
  subst, ==_iff, ℕ, ◌≡◌, refl, ◌∙◌, Bool, true, false, not, ◌&&◌, ◌||◌, sym, ap, Option-cases,
  Bool-cases, inl, inr, ◌==◌, if◌then◌else◌,
}
use webfuse.Base.Int.{ℤ, pos, negsuc, is_zero, is_positive}
use webfuse.Message.Bytes.{Bytes}
use webfuse.Authenticator.{
  Process, Outcome, returned, replaced, exited, child, same_pid, parent, authenticate,
}

-- Of the manual pages, where `is_open` is whether a descriptor is open: `pipe` opens two descriptors that
-- were not open if it succeeds, and `close` closes the one it is given, if that is open.
pub record IsProcess {W : Type 0} (sys : Process W) (is_open : ℤ → W → Bool) : Type 0 where
  pub pipe_opens :
      (fd : ℤ) (w : W)
      → is_zero (sys.pipe w).0 ≡ true
      → is_open fd (sys.pipe w).3
        ≡ (is_open fd w || (same_pid fd (sys.pipe w).1 || same_pid fd (sys.pipe w).2))
  pub pipe_new :
      (w : W)
      → is_zero (sys.pipe w).0 ≡ true
      → (is_open (sys.pipe w).1 w ≡ false) × (is_open (sys.pipe w).2 w ≡ false)
  pub pipe_fails :
      (fd : ℤ) (w : W) → is_zero (sys.pipe w).0 ≡ false → is_open fd (sys.pipe w).3 ≡ is_open fd w
  pub fork_keeps : (fd : ℤ) (w : W) → is_open fd (sys.fork w).1 ≡ is_open fd w
  pub close_closes :
      (fd closed : ℤ) (w : W)
      → is_open fd (sys.close closed w) ≡ (not (same_pid fd closed) && is_open fd w)
  pub write_keeps :
      (fd target : ℤ) (token : Bytes) (w : W) → is_open fd (sys.write target token w) ≡ is_open fd w
  pub waitpid_keeps : (fd pid : ℤ) (w : W) → is_open fd (sys.waitpid pid w).2 ≡ is_open fd w

-- `same_pid` is the equality of the integers.
same_pid-equal : (a b : ℤ) → same_pid a b ≡ true → a ≡ b
unfolding same_pid
same_pid-equal (pos m) (pos n) e = ap pos ((==_iff m n).0 e)
same_pid-equal (negsuc m) (negsuc n) e = ap negsuc ((==_iff m n).0 e)
same_pid-equal (pos m) (negsuc n) e = cc e
same_pid-equal (negsuc m) (pos n) e = cc e

-- A descriptor that was opened and closed, and one that stays.
opened_closed :
    (before first second : Bool)
    → (first ≡ true → before ≡ false)
    → (second ≡ true → before ≡ false)
    → (not first && (not second && (before || (first || second)))) ≡ before
opened_closed before true second h h' = sym (h refl)
opened_closed before false true h h' = sym (h' refl)
opened_closed true false false h h' = refl
opened_closed false false false h h' = refl

or_false : (a : Bool) → (a || false) ≡ a
or_false true = refl
or_false false = refl

first_of_both : (a b : Bool) → (a && b) ≡ true → a ≡ true
first_of_both true b h = refl
first_of_both false b h = h

positive_not_failed : (a b : Bool) → (a && (b && not true)) ≡ false
positive_not_failed true true = refl
positive_not_failed true false = refl
positive_not_failed false b = refl

-- What holds of a call that returns.
abbrev Returned : {W : Type 0} → (Bool → W → Type 0) → Outcome W → Type 0
Returned P (returned b w) = P b w
Returned P replaced = Unit {0}
Returned P (exited w) = Unit {0}

module _ {W : Type 0} (sys : Process W) (app token : Bytes) (w : W) where
  -- The pipe, and the process that `fork` gave.
  abbrev pub piped : ℤ × ℤ × ℤ × W
  piped = sys.pipe w

  abbrev pub forked : ℤ × W
  forked = sys.fork piped.3

  -- `fork` failed, and `pipe` did not.
  abbrev pub fork_failed : Bool
  fork_failed = is_zero piped.0 && (not (is_zero forked.0) && not (is_positive forked.0))

  -- The wait of the parent.
  abbrev pub waited : ℤ × ℕ × W
  waited = sys.waitpid forked.0 (sys.close piped.2 (sys.write piped.2 token forked.1))

  child-Returned : (P : Bool → W → Type 0) (fd : ℤ) (w0 : W) → Returned P (child sys app fd w0)
  unfolding child
  child-Returned P fd w0 =
      let w1 = sys.dup2 fd 0 (sys.close (pos 0) w0) in
      let w2 = sys.dup2 (pos 1) 2 (sys.open_null (sys.closefrom 1 w1)) in
      elim (Option-cases (sys.execl (c_string app) (c_string app) w2)) [
        | inl e ↦ rw (e, child) (record {})
        | inr (w3, e) ↦ rw (e, child) (record {})
      ]

  -- A call that returns came from the parent, or from an error of `pipe` or `fork`.
  authenticate-Returned :
      (P : Bool → W → Type 0)
      → (is_zero piped.0 ≡ false → P false piped.3)
      → (fork_failed ≡ true → P false forked.1)
      → (is_zero piped.0 ≡ true
          → is_positive forked.0 ≡ true
          → Returned P (parent sys app token piped.1 piped.2 forked.0 forked.1))
      → Returned P (authenticate sys app token w)
  unfolding authenticate
  authenticate-Returned P no_pipe no_fork by_parent = elim (Bool-cases (is_zero piped.0)) [
    | inr e ↦ rw (e) (no_pipe e)
    | inl e ↦ rw (e) (elim (Bool-cases (is_zero forked.0)) [
      | inl e1 ↦ rw (e1) (child-Returned P piped.1 forked.1)
      | inr e1 ↦ rw (e1) (elim (Bool-cases (is_positive forked.0)) [
        | inl e2 ↦ rw (e2) (by_parent e e2)
        | inr e2 ↦ rw (e2) (no_fork (rw (e, e1, e2) refl))
      ])
    ])
  ]

  -- There was a child, the wait was for it, and the exit status in what `waitpid` gave is `EXIT_SUCCESS`.
  abbrev pub Accepted : Type 0
  Accepted =
      (is_zero piped.0 ≡ true)
      × (is_positive forked.0 ≡ true)
      × (same_pid waited.0 forked.0 ≡ true)
      × (sys.wexitstatus waited.1 ≡ 0)

  accepted-exit :
      ((if same_pid waited.0 forked.0 then sys.wexitstatus waited.1 else 1) == 0) ≡ true
      → (same_pid waited.0 forked.0 ≡ true) × (sys.wexitstatus waited.1 ≡ 0)
  accepted-exit h = elim (Bool-cases (same_pid waited.0 forked.0)) [
    | inl e ↦ (e, (==_iff (sys.wexitstatus waited.1) 0).0 (rw (e) at h))
    | inr e ↦ cc (rw (e) at h)
  ]

  -- If the authenticator accepts a token, then there was a pipe and a child, the wait was for
  -- this child, and the exit status in what `waitpid` gave is `EXIT_SUCCESS`.
  pub authenticate-accepts : (w' : W) → authenticate sys app token w ≡ returned true w' → Accepted
  unfolding parent
  authenticate-accepts w' e =
      let P : Bool → W → Type 0 = λ b w'. b ≡ true → Accepted in
      subst (Returned P) e
        (authenticate-Returned P (λ e h. cc) (λ e h. cc)
          (λ e e1 h. let (same, exit) = accepted-exit h in (e, e1, same, exit)))
        refl

  -- The two ends of the pipe, as `fork` and the parent find them.
  forked-descriptors :
      (is_open : ℤ → W → Bool) (fd : ℤ)
      → IsProcess sys is_open
      → is_zero piped.0 ≡ true
      → is_open fd forked.1 ≡ (is_open fd w || (same_pid fd piped.1 || same_pid fd piped.2))
  forked-descriptors is_open fd known e = known.fork_keeps fd piped.3 ∙ known.pipe_opens fd w e

  parent-descriptors :
      (is_open : ℤ → W → Bool) (fd : ℤ)
      → IsProcess sys is_open
      → is_zero piped.0 ≡ true
      → is_open fd (sys.close piped.1 waited.2) ≡ is_open fd w
  parent-descriptors is_open fd known e =
      let (new_first, new_second) = known.pipe_new w e in
      rw
        (
          known.close_closes fd piped.1 waited.2,
          known.waitpid_keeps fd forked.0 (sys.close piped.2 (sys.write piped.2 token forked.1)),
          known.close_closes fd piped.2 (sys.write piped.2 token forked.1),
          known.write_keeps fd piped.2 token forked.1,
          forked-descriptors is_open fd known e,
        )
        (opened_closed (is_open fd w) (same_pid fd piped.1) (same_pid fd piped.2)
          (λ same. ap (λ d. is_open d w) (same_pid-equal fd piped.1 same) ∙ new_first)
          (λ same. ap (λ d. is_open d w) (same_pid-equal fd piped.2 same) ∙ new_second))

  -- After a call of the authenticator that returns, exactly the same descriptors are open as
  -- before, but where `fork` failed also both ends of the pipe, if the calls of the system do as
  -- documented: `pipe` opens two descriptors that were not open, or none if it fails, `close`
  -- closes the one it gets, and the others open and close none.
  pub authenticate-descriptors :
      (is_open : ℤ → W → Bool) (result : Bool) (w' : W) (fd : ℤ)
      → IsProcess sys is_open
      → authenticate sys app token w ≡ returned result w'
      → is_open fd w'
        ≡ (is_open fd w || (fork_failed && (same_pid fd piped.1 || same_pid fd piped.2)))
  unfolding parent
  authenticate-descriptors is_open result w' fd known e =
      let P : Bool → W → Type 0 = λ b w'.
        is_open fd w'
        ≡ (is_open fd w || (fork_failed && (same_pid fd piped.1 || same_pid fd piped.2))) in
      subst (Returned P) e (
        authenticate-Returned P
          (λ e. rw (e) (known.pipe_fails fd w e ∙ sym (or_false (is_open fd w))))
          (λ e. rw (e) (forked-descriptors is_open fd known (first_of_both (is_zero piped.0) _ e)))
          (λ e e1.
            rw (e1, positive_not_failed (is_zero piped.0) (not (is_zero forked.0)))
              (parent-descriptors is_open fd known e ∙ sym (or_false (is_open fd w)))))
