-- ===== src/Server/Waiting.antt =====
-- `ws_server::perform` of src/webfuse/ws/server.cpp: a call waits for its promise, at most for the timeout.
use webfuse.Base.{ℕ, List, [], ◌∷◌, Option, none, some, ◌==◌, if◌then◌else◌}
use webfuse.Message.Reader.{Reader}
use webfuse.Server.{Effect, callback_on_writable, lws_write, set_value, set_exception}

-- What a promise holds after some effects: nothing yet, an exception, or a reader.
unfoldable pub promised : ℕ → List Effect → Option (Option Reader)
promised ticket [] = none
promised ticket (set_value t reader ∷ effects) =
    let rest = promised ticket effects in if t == ticket then some (some reader) else rest
promised ticket (set_exception t ∷ effects) =
    let rest = promised ticket effects in if t == ticket then some none else rest
promised ticket (callback_on_writable wsi ∷ effects) = promised ticket effects
promised ticket (lws_write wsi message ∷ effects) = promised ticket effects

-- `wait_for` and `get`, where the effects are those before the timeout. `none` is an exception.
unfoldable pub result_of : ℕ → List Effect → Option Reader
result_of ticket in_time = elim (promised ticket in_time) [ none ↦ none | some result ↦ result ]
