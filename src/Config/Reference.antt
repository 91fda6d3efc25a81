-- ===== src/Config/Reference.antt =====
-- The arguments of the service as a list that is read from the front, and that the loop of
-- `ws_config` does the same.
use webfuse.Base.{
  ℕ, zero, suc, ◌+◌, ◌<◌, ◌≡◌, refl, ap, ◌∙◌, List, [], ◌∷◌, ◌++◌, append_assoc, true, false,
  Option, none, some, Option-cases, inl, inr, ◌⊎◌, length, get_or, lt→ltb, length-append, arith,
}
use webfuse.Message.Bytes.{Bytes}
use webfuse.Commandline.{
  CommandlineReader, next, move_on, has_current, current_arg, push, new_commandline_args,
  new_commandline_reader,
}
use webfuse.Config.{
  WsConfig, Command, new_config, Valued, Argument, help, version, valued, plain, argument_of,
  set_value, set_port, set_timeout, push_arg, fail, handle, take_value, Outcome, parsed, thrown,
  parse_loop, parse_config, finish,
}

-- An option that waits for its value is the second argument.
unfoldable pub interpret : List Bytes → Option Valued → WsConfig → Outcome
interpret [] none c = parsed c
interpret [] (some option) c = parsed (fail c)
interpret (value ∷ rest) (some option) c = elim (set_value option value c) [
  | none ↦ thrown
  | some c' ↦ interpret rest none c'
]
interpret (arg ∷ rest) none c = elim (argument_of arg) [
  | help ↦ interpret rest none (record c { cmd = Command.show_help })
  | version ↦ interpret rest none (record c { cmd = Command.print_version })
  | valued option ↦ interpret rest (some option) c
  | plain ↦ elim (push_arg arg c) [ none ↦ thrown | some c' ↦ interpret rest none c' ]
]

-- A reader that has read `front`, and `last` most recently.
abbrev reading : List Bytes → Bytes → List Bytes → CommandlineReader
reading front last rest = record { current = length front; argv = front ++ last ∷ rest }

get_or_last :
    (front : List Bytes) (last : Bytes) (rest : List Bytes)
    → get_or (front ++ last ∷ rest) (length front) [] ≡ last
get_or_last [] last rest = refl
get_or_last (x ∷ front) last rest = get_or_last front last rest

current_arg-reading :
    (front : List Bytes) (last : Bytes) (rest : List Bytes)
    → current_arg (reading front last rest) ≡ last
unfolding current_arg
current_arg-reading front last rest = get_or_last front last rest

length_reading :
    (front : List Bytes) (last : Bytes) (rest : List Bytes)
    → length (front ++ last ∷ rest) ≡ suc (length front + length rest)
length_reading front last rest = omega (arith, length-append front (last ∷ rest))

next-more :
    (front : List Bytes) (last arg : Bytes) (rest : List Bytes)
    → next (reading front last (arg ∷ rest)) ≡ (true, reading (front ++ last ∷ []) arg rest)
unfolding next move_on has_current
next-more front last arg rest =
    let size : length (front ++ last ∷ []) ≡ suc (length front) =
      omega (arith, length-append front (last ∷ [])) in
    rw
      (
        append_assoc front (last ∷ []) (arg ∷ rest),
        size,
        lt→ltb (length front) (length (front ++ last ∷ arg ∷ rest))
            (omega (arith, length_reading front last (arg ∷ rest))),
        lt→ltb (suc (length front)) (length (front ++ last ∷ arg ∷ rest))
            (omega (arith, length_reading front last (arg ∷ rest))),
      )
      refl

next-end : (front : List Bytes) (last : Bytes) → (next (reading front last [])).0 ≡ false
unfolding next move_on has_current
next-end front last = ground (arith, length_reading front last [])

-- No value of an option makes the parse fail.
pub set_value-failed :
    (option : Valued) (value : Bytes) (c c' : WsConfig)
    → set_value option value c ≡ some c'
    → c'.failed ≡ c.failed
unfolding set_value set_port set_timeout
set_value-failed Valued.port value c c' e = ground arith
set_value-failed Valued.vhost value c c' e = ground arith
set_value-failed Valued.key value c c' e = ground arith
set_value-failed Valued.cert value c c' e = ground arith
set_value-failed Valued.authenticator value c c' e = ground arith
set_value-failed Valued.auth_header value c c' e = ground arith
set_value-failed Valued.timeout value c c' e = ground arith
set_value-failed Valued.docroot value c c' e = ground arith

pub push_arg-failed :
    (arg : Bytes) (c c' : WsConfig) → push_arg arg c ≡ some c' → c'.failed ≡ c.failed
unfolding push_arg
push_arg-failed arg c c' e = ground arith

pub Argument-cases :
    (a : Argument)
    → (a ≡ help) ⊎ ((a ≡ version) ⊎ ((a ≡ plain) ⊎ ((option : Valued) × (a ≡ valued option))))
Argument-cases help = inl refl
Argument-cases version = inr (inl refl)
Argument-cases plain = inr (inr (inl refl))
Argument-cases (valued option) = inr (inr (inr (option, refl)))

-- A round of the loop, which ends it or hands what an argument does to the next round.
loop_end :
    (fuel : ℕ) (r : CommandlineReader) (c : WsConfig)
    → c.failed ≡ false
    → (next r).0 ≡ false
    → parse_loop (suc fuel) r c ≡ parsed c
unfolding parse_loop
loop_end fuel r c ok e = simp (ok, e)

loop_failed :
    (fuel : ℕ) (r : CommandlineReader) (c : WsConfig)
    → 0 < fuel
    → c.failed ≡ true
    → parse_loop fuel r c ≡ parsed c
unfolding parse_loop
loop_failed zero r c some_fuel e = absurd (omega arith)
loop_failed (suc fuel) r c some_fuel e = simp (e)

loop_round :
    (fuel : ℕ) (front : List Bytes) (last arg : Bytes) (rest : List Bytes) (c : WsConfig)
    → c.failed ≡ false
    → parse_loop (suc fuel) (reading front last (arg ∷ rest)) c
      ≡ elim (handle (argument_of arg) (reading (front ++ last ∷ []) arg rest) c) [
        | none ↦ thrown
        | some (c', after) ↦ parse_loop fuel after c'
      ]
unfolding parse_loop
loop_round fuel front last arg rest c ok =
    simp (ok, next-more front last arg rest, current_arg-reading (front ++ last ∷ []) arg rest)

-- What the loop makes of `rest` with this fuel.
Reads : ℕ → Type 0
Reads fuel =
    (front : List Bytes) (last : Bytes) (rest : List Bytes) (c : WsConfig)
    → c.failed ≡ false
    → length rest < fuel
    → parse_loop fuel (reading front last rest) c ≡ interpret rest none c

abbrev next_round : ℕ → Option (WsConfig × CommandlineReader) → Outcome
next_round fuel after = elim after [ none ↦ thrown | some (c', r') ↦ parse_loop fuel r' c' ]

module _ (fuel : ℕ) (ih : Reads fuel) (front : List Bytes) (last : Bytes) (c : WsConfig)
    (ok : c.failed ≡ false) where
  valued_round :
      (option : Valued) (rest : List Bytes)
      → length rest < fuel
      → next_round fuel (handle (valued option) (reading front last rest) c)
        ≡ interpret rest (some option) c
  unfolding handle take_value interpret Reads fail
  valued_round option [] small =
      rw (take_value, next-end front last) (loop_failed fuel _ (fail c) (omega arith) refl)
  valued_round option (value ∷ rest) small = elim (Option-cases (set_value option value c)) [
    | inl e ↦ simp (next-more front last value rest, current_arg-reading, e, take_value, interpret)
    | inr (c', e) ↦
        rw (next-more front last value rest, take_value)
          (rw (current_arg-reading, e, interpret)
            (ih (front ++ last ∷ []) value rest c' (set_value-failed option value c c' e ∙ ok)
              (omega arith)))
  ]

  plain_round :
      (arg : Bytes) (rest : List Bytes)
      → length rest < fuel
      → next_round fuel (handle plain (reading (front ++ last ∷ []) arg rest) c)
        ≡ elim (push_arg arg c) [ none ↦ thrown | some c' ↦ interpret rest none c' ]
  unfolding handle Reads
  plain_round arg rest small = elim (Option-cases (push_arg arg c)) [
    | inl e ↦ rw (handle, current_arg-reading (front ++ last ∷ []) arg rest, e) refl
    | inr (c', e) ↦
        rw (handle, current_arg-reading (front ++ last ∷ []) arg rest, e)
          (ih (front ++ last ∷ []) arg rest c' (push_arg-failed arg c c' e ∙ ok) small)
  ]

-- With more fuel than arguments, the loop of the constructor reads the list to its end.
loop-interpret : (fuel : ℕ) → Reads fuel
unfolding Reads interpret handle
loop-interpret zero front last rest c ok small = absurd (omega arith)
loop-interpret (suc fuel) front last [] c ok small =
    loop_end fuel (reading front last []) c ok (next-end front last)
loop-interpret (suc fuel) front last (arg ∷ rest) c ok small =
    let less : length rest < fuel = omega arith in
    let ih : Reads fuel = loop-interpret fuel in
    loop_round fuel front last arg rest c ok ∙ elim (Argument-cases (argument_of arg)) [
      | inl e ↦
          rw (e, interpret)
            (ih (front ++ last ∷ []) arg rest (record c { cmd = Command.show_help }) ok less)
      | inr (inl e) ↦
          rw (e, interpret)
            (ih (front ++ last ∷ []) arg rest (record c { cmd = Command.print_version }) ok less)
      | inr (inr (inl e)) ↦ rw (e, interpret) (plain_round fuel ih front last c ok arg rest less)
      | inr (inr (inr (option, e))) ↦
          rw (e, interpret) (valued_round fuel ih (front ++ last ∷ []) arg c ok option rest less)
    ]

first_arg :
    (prog_name : Bytes) (n : ℕ)
    → new_commandline_args prog_name (suc n)
      ≡ some (record { capacity = suc n; argv = prog_name ∷ [] })
unfolding new_commandline_args push
first_arg prog_name n = ground arith

-- The loop of `ws_config`, with its reader and its early end on an error, does what a list of
-- arguments means that is read from the front: an option takes the next argument, whatever it is,
-- and an option without one is an error. The fuel is more than the number of arguments.
pub parse_config-interpret :
    (fuel : ℕ) (prog_name : Bytes) (args : List Bytes)
    → length args < fuel
    → parse_config fuel (prog_name ∷ args)
      ≡ finish (
          interpret args none
            (new_config (record { capacity = suc (length args); argv = prog_name ∷ [] })))
unfolding parse_config new_commandline_reader new_config Reads
parse_config-interpret fuel prog_name args enough =
    rw (first_arg prog_name (length args), parse_config)
      (ap finish (loop-interpret fuel [] prog_name args _ refl enough))
