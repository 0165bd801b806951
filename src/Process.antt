-- ===== src/Process.antt =====
-- `main`, `_serve_health` and `_stop_health` of src/main.py: the handlers of the signals, the server
-- of the health endpoint, and what is undone when the loop ends. What a call of the socket server,
-- of its thread and of the S3 library comes to is an argument; logging is left out.
pub mod Shutdown
use argo_workflows_exporter.Base.{
  ℕ, String, Bool, true, false, Option, none, some, List, if◌then◌else◌,
}
use argo_workflows_exporter.Base.Results.{
  Result, ok, err, Error, type_error, config_error, runtime_error, system_exit,
}
use argo_workflows_exporter.Json.{Value}
use argo_workflows_exporter.Taxonomy.{TextTools, Rule}
use argo_workflows_exporter.Storage.{Bytes, Pyarrow}
use argo_workflows_exporter.Health.{HealthState, initial, reset}
use argo_workflows_exporter.Cycle.{Store}
use argo_workflows_exporter.Cycle.Accepted.{cycle_config}
use argo_workflows_exporter.Config.{Environment, S3Endpoint, Settings, load}
use argo_workflows_exporter.Poll.{Turn, PollState, run_poll_loop}

-- what `signal.signal` installs: a handler that was there before, or that of `main`
pub data Handler : Type 0 where
  earlier : ℕ → Handler
  request_shutdown : Handler

-- A handler that was not installed from Python is `None`.
pub record Process : Type 0 where
  pub sigterm : Option Handler
  pub sigint : Option Handler
  pub listening : Bool
  pub stop : Bool
  pub poll : PollState

-- the arguments of `boto3.client`
pub record ClientArguments : Type 0 where
  pub endpoint_url : String
  pub aws_access_key_id : String
  pub aws_secret_access_key : String
  pub region_name : String
  pub addressing_style : String
  pub max_attempts : ℕ
  pub mode : String

-- `s3io.client`
abbrev pub client_arguments : S3Endpoint → ClientArguments
client_arguments endpoint = record {
  endpoint_url = endpoint.endpoint_url;
  aws_access_key_id = endpoint.access_key_id;
  aws_secret_access_key = endpoint.secret_access_key;
  region_name = endpoint.region;
  addressing_style = endpoint.addressing_style;
  max_attempts = 10;
  mode = "standard";
}

-- What the calls of the libraries come to. `loop_end` is what the loop raises, if it does not return.
pub record Outcomes : Type 0 where
  pub client : ClientArguments → Result (Unit {0})
  pub bind : Result (Unit {0})
  pub thread_start : Result (Unit {0})
  pub started : Bool
  pub turns : List Turn
  pub loop_end : Result (Unit {0})
  pub is_alive : Bool
  pub shutdown : Result (Unit {0})
  pub server_close : Result (Unit {0})
  pub join : Result (Unit {0})

-- A body that changes the process and returns or raises.
abbrev pub M : Type 0
M = Process → Process × Result (Unit {0})

abbrev pub go_on : Process × Result (Unit {0}) → M → Process × Result (Unit {0})
go_on (p, err e) rest = (p, err e)
go_on (p, ok x) rest = rest p

infixl 5 ◌>>◌
abbrev pub ◌>>◌ : M → M → M
◌>>◌ first rest p = go_on (first p) rest

-- `finally` keeps what the body raised, unless the block raises itself
abbrev pub ended : Result (Unit {0}) → Process × Result (Unit {0}) → Process × Result (Unit {0})
ended body (p, err e) = (p, err e)
ended body (p, ok x) = (p, body)

abbrev pub after_body : Process × Result (Unit {0}) → M → Process × Result (Unit {0})
after_body (p, body) block = ended body (block p)

abbrev pub try_finally : M → M → M
try_finally body block p = after_body (body p) block

abbrev pub call : Result (Unit {0}) → M
call outcome p = (p, outcome)

-- `server.server_close()`: the socket is closed if it returns
abbrev pub close : Result (Unit {0}) → M
close (err e) p = (p, err e)
close (ok x) p = (record p { listening = false }, ok tt)

-- `except Exception: server.server_close(); raise`
abbrev pub close_and_raise : Error → Process × Result (Unit {0}) → Process × Result (Unit {0})
close_and_raise e (p, err f) = (p, err f)
close_and_raise e (p, ok x) = (p, err e)

abbrev pub unless_served : Outcomes → Process × Result (Unit {0}) → Process × Result (Unit {0})
unless_served o (p, err e) = close_and_raise e (close o.server_close p)
unless_served o (p, ok x) = (p, ok x)

-- `_serve_health`
unfoldable pub serve_health : Outcomes → M
serve_health o = call o.bind >> (λ p. unless_served o (
    (call o.thread_start >> call (if o.started then ok tt else err runtime_error))
      (record p { listening = true })))

-- `_stop_health`, with the server that `main` has by then
unfoldable pub stop_health : Outcomes → Bool → M
stop_health o false = call (ok tt)
stop_health o true =
    try_finally (call (if o.is_alive then o.shutdown else ok tt))
      (try_finally (close o.server_close) (call o.join))

-- `signal.signal`, which refuses `None`
abbrev pub set_sigterm : Option Handler → M
set_sigterm none p = (p, err type_error)
set_sigterm (some h) p = (record p { sigterm = some h }, ok tt)

abbrev pub set_sigint : Option Handler → M
set_sigint none p = (p, err type_error)
set_sigint (some h) p = (record p { sigint = some h }, ok tt)

-- whether `health_server` is set: `_serve_health` has returned
abbrev pub has_server : Process × Result (Unit {0}) → Bool
has_server (p, err e) = false
has_server (p, ok x) = true

abbrev pub set_stop : M
set_stop p = (record p { stop = true }, ok tt)

-- the handlers that `previous_handlers` holds
abbrev pub restore : Option Handler → Option Handler → M
restore sigterm sigint = set_sigterm sigterm >> set_sigint sigint

module _ (T : TextTools) (rules : List Rule) (P : Pyarrow) (dumps : Value → Bytes) where
  abbrev pub loop : Settings → Outcomes → M
  loop s o p = (
    record p { poll = run_poll_loop T rules P dumps (cycle_config s) true o.turns p.poll },
    o.loop_end,
  )

  -- the rest of the body, from what `_serve_health` comes to
  unfoldable pub run_served :
      Settings
      → Outcomes
      → Option Handler
      → Option Handler
      → Process × Result (Unit {0})
      → Process × Result (Unit {0})
  run_served s o sigterm sigint served =
      after_body (go_on served (loop s o))
        (set_stop >> try_finally (stop_health o (has_server served)) (restore sigterm sigint))

  -- the body of `main` once the handlers are installed
  unfoldable pub run : Settings → Outcomes → Option Handler → Option Handler → M
  run s o sigterm sigint p = run_served s o sigterm sigint (serve_health o p)

  -- a new event `stop`, and the health state of the process
  abbrev pub with_health : Settings → Process → Process
  with_health s p = record p {
    stop = false;
    poll = record { store = p.poll.store; health = reset (initial s.poll_interval_seconds none) };
  }

  -- `main` after `config.load`
  unfoldable pub main_with : Settings → Outcomes → M
  main_with s o p =
      (call (o.client (client_arguments s.dest))
          >> set_sigterm (some request_shutdown)
          >> set_sigint (some request_shutdown)
          >> (λ q. run s o p.sigterm p.sigint (with_health s q)))
        p

  -- `except config.ConfigError`
  abbrev pub from_config : Result Settings → Outcomes → M
  from_config (ok s) o = main_with s o
  from_config (err config_error) o = call (err system_exit)
  from_config (err e) o = call (err e)

  unfoldable pub main :
      (String → String)
      → (String → Result Value)
      → (String → Result String)
      → Environment
      → Outcomes
      → M
  main upper loads read_file env o = from_config (load upper loads read_file env) o
