-- ===== src/Config/Outcomes.antt =====
-- How `ws_config` ends, and what holds of the options then.
use webfuse.Base.{
  ℕ, suc, ◌+◌, ◌≤◌, ◌<◌, ◌≡◌, refl, ap, subst, ◌∙◌, List, [], ◌∷◌, ◌++◌, true, false, Option, none,
  some, Option-cases, inl, inr, ◌⊎◌, length, ltb, lt→ltb, length-append, arith,
}
use webfuse.Base.Text.{stoi}
use webfuse.Message.Bytes.{Bytes}
use webfuse.Commandline.{push}
use webfuse.Config.{
  valued, WsConfig, Command, new_config, Valued, argument_of, set_value, set_port, set_timeout,
  push_arg, fail, verify, runs, is_missing, Outcome, parsed, thrown, unfinished, parse_config,
  finish,
}
use webfuse.Config.Reference.{interpret, parse_config-interpret, Argument-cases}

-- The options whose value is a number.
abbrev pub IsNumberOption : Valued → Type 0
IsNumberOption option = (option ≡ Valued.port) ⊎ (option ≡ Valued.timeout)

-- Such an option is followed by a text that `std::stoi` refuses.
unfoldable pub HasBadNumber : List Bytes → Type 0
HasBadNumber [] = ⊥
HasBadNumber (arg ∷ []) = ⊥
HasBadNumber (arg ∷ value ∷ rest) =
    ((option : Valued) × ((argument_of arg ≡ valued option)
        × (IsNumberOption option × (stoi value ≡ none))))
    ⊎ HasBadNumber (value ∷ rest)

-- Room for all the arguments that are left.
HasRoom : List Bytes → WsConfig → Type 0
HasRoom rest c = length c.args.argv + length rest ≤ c.args.capacity

set_value-none :
    (option : Valued) (value : Bytes) (c : WsConfig)
    → set_value option value c ≡ none
    → IsNumberOption option × (stoi value ≡ none)
unfolding set_value set_port set_timeout
set_value-none Valued.port value c e = (inl refl, ground arith)
set_value-none Valued.vhost value c e = cc
set_value-none Valued.key value c e = cc
set_value-none Valued.cert value c e = cc
set_value-none Valued.authenticator value c e = cc
set_value-none Valued.auth_header value c e = cc
set_value-none Valued.timeout value c e = (inr refl, ground arith)
set_value-none Valued.docroot value c e = cc

set_value-args :
    (option : Valued) (value : Bytes) (c c' : WsConfig)
    → set_value option value c ≡ some c'
    → c'.args ≡ c.args
unfolding set_value set_port set_timeout
set_value-args Valued.port value c c' e = ground arith
set_value-args Valued.vhost value c c' e = ground arith
set_value-args Valued.key value c c' e = ground arith
set_value-args Valued.cert value c c' e = ground arith
set_value-args Valued.authenticator value c c' e = ground arith
set_value-args Valued.auth_header value c c' e = ground arith
set_value-args Valued.timeout value c c' e = ground arith
set_value-args Valued.docroot value c c' e = ground arith

push_arg_room :
    (arg : Bytes) (rest : List Bytes) (c : WsConfig)
    → HasRoom (arg ∷ rest) c
    → (c' : WsConfig) × ((push_arg arg c ≡ some c') × HasRoom rest c')
unfolding push_arg push HasRoom
push_arg_room arg rest c room =
    let fits : ltb (length c.args.argv) c.args.capacity ≡ true =
      lt→ltb (length c.args.argv) c.args.capacity (omega arith) in
    (
      record c { args = record (c.args) { argv = c.args.argv ++ arg ∷ [] } },
      (rw (fits, push_arg, push) refl, omega (arith, length-append c.args.argv (arg ∷ []))),
    )

HasBadNumber-cons :
    (arg : Bytes) (rest : List Bytes) → HasBadNumber rest → HasBadNumber (arg ∷ rest)
unfolding HasBadNumber
HasBadNumber-cons arg [] bad = absurd bad
HasBadNumber-cons arg (value ∷ rest) bad = inr bad

-- The same, where the option that waits for its value has been read.
Bad : List Bytes → Option Valued → Type 0
Bad rest none = HasBadNumber rest
Bad [] (some option) = ⊥
Bad (value ∷ rest) (some option) = (IsNumberOption option × (stoi value ≡ none)) ⊎ HasBadNumber rest

Bad-option :
    (arg : Bytes) (rest : List Bytes) (option : Valued)
    → argument_of arg ≡ valued option
    → Bad rest (some option)
    → HasBadNumber (arg ∷ rest)
unfolding Bad HasBadNumber
Bad-option arg [] option e bad = absurd bad
Bad-option arg (value ∷ rest) option e (inl bad) = inl (option, (e, bad))
Bad-option arg (value ∷ rest) option e (inr bad) = inr (HasBadNumber-cons value rest bad)

-- How the arguments are read to their end.
Ends : Type 0 → Outcome → Type 0
Ends B outcome = ((c : WsConfig) × (outcome ≡ parsed c)) ⊎ ((outcome ≡ thrown) × B)

Ends-map : {B B' : Type 0} (outcome : Outcome) → (B → B') → Ends B outcome → Ends B' outcome
unfolding Ends
Ends-map outcome f (inl done) = inl done
Ends-map outcome f (inr (e, bad)) = inr (e, f bad)

interpret-Ends :
    (rest : List Bytes) (waiting : Option Valued) (c : WsConfig)
    → HasRoom rest c
    → Ends (Bad rest waiting) (interpret rest waiting c)
unfolding interpret Ends HasRoom Bad
interpret-Ends [] none c room = inl (c, refl)
interpret-Ends [] (some option) c room = inl (fail c, refl)
interpret-Ends (value ∷ rest) (some option) c room =
    elim (Option-cases (set_value option value c)) [
      | inl e ↦ rw (e, interpret) (inr (refl, inl (set_value-none option value c e)))
      | inr (c', e) ↦
          rw (e, interpret)
            (Ends-map _ (λ bad. inr bad)
              (interpret-Ends rest none c' (rw (set_value-args option value c c' e) (omega arith))))
    ]
interpret-Ends (arg ∷ rest) none c room =
    let less : length c.args.argv + length rest ≤ c.args.capacity = omega arith in
    let (c', (pushed, room')) = push_arg_room arg rest c room in
    let later = HasBadNumber-cons arg rest in
    elim (Argument-cases (argument_of arg)) [
      | inl e ↦
          rw (e, interpret)
            (Ends-map _ later
              (interpret-Ends rest none (record c { cmd = Command.show_help }) less))
      | inr (inl e) ↦
          rw (e, interpret)
            (Ends-map _ later
              (interpret-Ends rest none (record c { cmd = Command.print_version }) less))
      | inr (inr (inl e)) ↦
          rw (e, interpret, pushed) (Ends-map _ later (interpret-Ends rest none c' room'))
      | inr (inr (inr (option, e))) ↦
          rw (e, interpret)
            (Ends-map _ (Bad-option arg rest option e) (interpret-Ends rest (some option) c less))
    ]

-- Whatever the arguments of the service are, the loop of `ws_config` ends within one round more
-- than there are arguments, in a configuration, or in an exception and then an option for the
-- port or the timeout is followed by a text that `std::stoi` refuses.
pub parse_config_ends :
    (prog_name : Bytes) (args : List Bytes)
    → ((c : WsConfig) × (parse_config (suc (length args)) (prog_name ∷ args) ≡ parsed c))
      ⊎ ((parse_config (suc (length args)) (prog_name ∷ args) ≡ thrown) × HasBadNumber args)
unfolding Ends new_config HasRoom Bad
parse_config_ends prog_name args =
    let read = parse_config-interpret (suc (length args)) prog_name args (omega arith) in
    elim (interpret-Ends args none
      (new_config (record { capacity = suc (length args); argv = prog_name ∷ [] })) (omega arith)) [
        | inl (c, e) ↦ inl (verify c, read ∙ ap finish e)
        | inr (e, bad) ↦ inr (read ∙ ap finish e, bad)
      ]

-- TLS is only used with a key and a certificate, by a service that runs.
HasKeys : WsConfig → Type 0
HasKeys c =
    runs c.cmd ≡ true
    → c.use_tls ≡ true
    → (is_missing c.key_path ≡ false) × (is_missing c.cert_path ≡ false)

verify-HasKeys : (c : WsConfig) → HasKeys (verify c)
unfolding HasKeys verify fail
verify-HasKeys c running tls = ground arith

finish-HasKeys : (o : Outcome) (c : WsConfig) → finish o ≡ parsed c → HasKeys c
finish-HasKeys (parsed before) c e =
    let same : verify before ≡ c = cc in subst HasKeys same (verify-HasKeys before)
finish-HasKeys thrown c e = cc
finish-HasKeys unfinished c e = cc

-- A service that runs and uses TLS has a key and a certificate, whatever its arguments are. The
-- fuel is more than the number of arguments.
pub parse_config_keys :
    (fuel : ℕ) (prog_name : Bytes) (args : List Bytes) (c : WsConfig)
    → length args < fuel
    → parse_config fuel (prog_name ∷ args) ≡ parsed c
    → runs c.cmd ≡ true
    → c.use_tls ≡ true
    → (is_missing c.key_path ≡ false) × (is_missing c.cert_path ≡ false)
unfolding HasKeys
parse_config_keys fuel prog_name args c enough e =
    finish-HasKeys _ c (rw (parse_config-interpret fuel prog_name args enough) at e)
