-- ===== src/Config/Failures.antt =====
-- An error on the command line, and what the program does then.
use webfuse.Base.{
  ℕ, ◌<◌, ◌≡◌, refl, ◌∙◌, subst, List, [], ◌∷◌, true, false, Option, none, some, Option-cases, inl,
  inr, length, arith,
}
use webfuse.Message.Bytes.{Bytes}
use webfuse.Config.{
  WsConfig, Command, new_config, Valued, argument_of, set_value, push_arg, fail, verify, runs,
  Outcome, parsed, thrown, unfinished, parse_config, finish,
}
use webfuse.Config.Reference.{
  interpret, parse_config-interpret, Argument-cases, set_value-failed, push_arg-failed,
}

-- A configuration with an error does not run.
IsSafe : WsConfig → Type 0
IsSafe c = c.failed ≡ true → runs c.cmd ≡ false

OutcomeIsSafe : Outcome → Type 0
OutcomeIsSafe (parsed c) = IsSafe c
OutcomeIsSafe thrown = Unit {0}
OutcomeIsSafe unfinished = Unit {0}

fail-IsSafe : (c : WsConfig) → IsSafe (fail c)
unfolding IsSafe fail
fail-IsSafe c h = refl

verify-IsSafe : (c : WsConfig) → IsSafe c → IsSafe (verify c)
unfolding IsSafe verify fail
verify-IsSafe c h e = ground (arith, h)

interpret-IsSafe :
    (rest : List Bytes) (waiting : Option Valued) (c : WsConfig)
    → c.failed ≡ false
    → OutcomeIsSafe (interpret rest waiting c)
unfolding interpret OutcomeIsSafe IsSafe
interpret-IsSafe [] none c ok = λ e. cc (ok, e)
interpret-IsSafe [] (some option) c ok = fail-IsSafe c
interpret-IsSafe (value ∷ rest) (some option) c ok =
    elim (Option-cases (set_value option value c)) [
      | inl e ↦ rw (e, interpret) (record {})
      | inr (c', e) ↦
          rw (e, interpret)
            (interpret-IsSafe rest none c' (set_value-failed option value c c' e ∙ ok))
    ]
interpret-IsSafe (arg ∷ rest) none c ok = elim (Argument-cases (argument_of arg)) [
  | inl e ↦ rw (e, interpret) (interpret-IsSafe rest none (record c { cmd = Command.show_help }) ok)
  | inr (inl e) ↦
      rw (e, interpret) (interpret-IsSafe rest none (record c { cmd = Command.print_version }) ok)
  | inr (inr (inl e)) ↦ elim (Option-cases (push_arg arg c)) [
    | inl e1 ↦ rw (e, interpret, e1) (record {})
    | inr (c', e1) ↦
        rw (e, interpret, e1) (interpret-IsSafe rest none c' (push_arg-failed arg c c' e1 ∙ ok))
  ]
  | inr (inr (inr (option, e))) ↦ rw (e, interpret) (interpret-IsSafe rest (some option) c ok)
]

finish-IsSafe : (o : Outcome) → OutcomeIsSafe o → OutcomeIsSafe (finish o)
unfolding OutcomeIsSafe
finish-IsSafe (parsed c) h = verify-IsSafe c h
finish-IsSafe thrown h = h
finish-IsSafe unfinished h = h

pub parse_config-IsSafe :
    (fuel : ℕ) (prog_name : Bytes) (args : List Bytes) (c : WsConfig)
    → length args < fuel
    → parse_config fuel (prog_name ∷ args) ≡ parsed c
    → c.failed ≡ true
    → runs c.cmd ≡ false
unfolding OutcomeIsSafe IsSafe new_config
parse_config-IsSafe fuel prog_name args c enough e =
    subst OutcomeIsSafe (rw (parse_config-interpret fuel prog_name args enough) at e)
      (finish-IsSafe _ (interpret-IsSafe args none _ refl))
