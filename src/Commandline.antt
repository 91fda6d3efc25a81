-- ===== src/Commandline.antt =====
-- `commandline_reader` and `commandline_args` of src/webfuse/util: the arguments of a program read one
-- by one, and arguments collected for another. An exception is none.
use webfuse.Base.{
  ℕ, suc, List, [], ◌∷◌, ◌++◌, Bool, Option, none, some, length, get_or, ltb, if◌then◌else◌,
}
use webfuse.Message.Bytes.{Bytes}

-- `argc_` is the length of `argv`.
pub record CommandlineReader : Type 0 where
  pub current : ℕ
  pub argv : List Bytes

unfoldable pub new_commandline_reader : List Bytes → CommandlineReader
new_commandline_reader argv = record { current = 0; argv = argv }

unfoldable pub move_on : CommandlineReader → CommandlineReader
move_on r = if ltb r.current (length r.argv) then record r { current = suc r.current } else r

unfoldable pub has_current : CommandlineReader → Bool
has_current r = ltb r.current (length r.argv)

-- `next()`: the result, and the reader after it
unfoldable pub next : CommandlineReader → Bool × CommandlineReader
next r = let moved = move_on r in (has_current moved, moved)

-- `current()`, which is only called after a `next` that returned true.
unfoldable pub current_arg : CommandlineReader → Bytes
current_arg r = get_or r.argv r.current []

pub record CommandlineArgs : Type 0 where
  pub capacity : ℕ
  pub argv : List Bytes

-- `argc` is the number of arguments that were pushed.
unfoldable pub push : Bytes → CommandlineArgs → Option CommandlineArgs
push arg args =
    if ltb (length args.argv) args.capacity
    then some (record args { argv = args.argv ++ arg ∷ [] })
    else none

unfoldable pub new_commandline_args : Bytes → ℕ → Option CommandlineArgs
new_commandline_args prog_name capacity =
    if ltb capacity 1 then none else push prog_name (record { capacity = capacity; argv = [] })
