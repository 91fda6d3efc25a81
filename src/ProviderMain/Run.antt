-- ===== src/ProviderMain/Run.antt =====
-- `main` of src/provider_main.cpp. What `provider::connect` and `provider::service` do, which pass to
-- libwebsockets, are parameters on a state `W`, and so is `shutdown_requested`, which signals and the
-- listener of the connection set.
use webfuse.Base.{
  ℕ, zero, suc, ◌<◌, ◌≡◌, refl, Bool, true, false, Option, none, some, if◌then◌else◌, arith,
}
use webfuse.Base.Int.{ℤ, pos}
use webfuse.Message.Bytes.{Bytes}
use webfuse.Client.Connect.{ConnectInfo, connect}
use webfuse.ProviderMain.{Command, Context, resolve_base}

-- How the loop ends, or that its fuel is spent.
pub data Served (W : Type 0) : Type 0 where
  stopped : W → Served W
  threw unended : Served W

-- The exit code, or that the loop has not ended.
pub data Ended (W : Type 0) : Type 0 where
  exits : ℤ → Ended W
  running : Ended W

module _ {W : Type 0} (service : W → Option W) (shutdown_requested : W → Bool) where
  -- `while (!shutdown_requested)`
  unfoldable pub serve : ℕ → W → Served W
  serve zero w = unended
  serve (suc fuel) w =
      if shutdown_requested w
      then stopped w
      else elim (service w) [ none ↦ threw | some w' ↦ serve fuel w' ]

  abbrev pub exit_code : Context → ℤ
  exit_code ctx = if ctx.failed then pos 1 else pos 0

  abbrev pub code_of : Context → Served W → Ended W
  code_of ctx (stopped w) = exits (exit_code ctx)
  code_of ctx threw = exits (pos 1)
  code_of ctx unended = running

  module _ (realpath : Bytes → Option Bytes) (is_directory : Bytes → Bool)
      (open_connection : Bytes → Context → ConnectInfo → W → W) where
    -- The `try` block before the loop: an exception is none.
    unfoldable pub start : Context → W → Option W
    start ctx w = elim (resolve_base realpath is_directory ctx.base_path) [
      | none ↦ none
      | some base ↦ elim (connect ctx.url) [
        | none ↦ none
        | some info ↦ some (open_connection base ctx info w)
      ]
    ]

    unfoldable pub run_main : ℕ → Context → W → Ended W
    run_main fuel ctx w = elim (ctx.cmd) [
      | Command.run ↦ elim (start ctx w) [
        | none ↦ exits (pos 1)
        | some w' ↦ code_of ctx (serve fuel w')
      ]
      | Command.show_version ↦ exits (exit_code ctx)
      | Command.show_help ↦ exits (exit_code ctx)
    ]

  -- The services that are made until a shutdown is requested, none of which throws.
  pub data Stops : ℕ → W → W → Type 0 where
    now : {w : W} → shutdown_requested w ≡ true → Stops zero w w
    after :
        {n : ℕ} {w w' w'' : W}
        → shutdown_requested w ≡ false
        → service w ≡ some w'
        → Stops n w' w''
        → Stops (suc n) w w''

  -- The loop ends when a shutdown is requested: after so many services, with fuel for one round more.
  pub serve-Stops : (n fuel : ℕ) (w w' : W) → Stops n w w' → n < fuel → serve fuel w ≡ stopped w'
  unfolding serve
  serve-Stops n zero w w' stops enough = absurd (omega (arith, enough))
  serve-Stops zero (suc fuel) w w' (now e) enough = rw (e) refl
  serve-Stops (suc n) (suc fuel) w w' (after {w' = w1} e got rest) enough =
      rw (e, got, serve) (serve-Stops n fuel w1 w' rest (omega (arith, enough)))
