-- ===== src/Process/Shutdown.antt =====
-- However `main` ends, what it has changed in the process is undone.
use argo_workflows_exporter.Base.{
  String, ◌≡◌, ◌↔◌, refl, sym, ap, subst, ◌∙◌, Bool, true, false, inl, inr, ◌⊎◌, none, some, List,
  arith, if◌then◌else◌,
}
use argo_workflows_exporter.Base.Results.{Result, ok, err, Error}
use argo_workflows_exporter.Json.{Value}
use argo_workflows_exporter.Taxonomy.{TextTools, Rule}
use argo_workflows_exporter.Storage.{Bytes, Pyarrow}
use argo_workflows_exporter.Config.{Environment, Settings, load}
use argo_workflows_exporter.Cycle.Accepted.{cycle_config}
use argo_workflows_exporter.Poll.{PollState, run_poll_loop}
use argo_workflows_exporter.Health.{initial, reset}
use argo_workflows_exporter.Process.{
  Handler, request_shutdown, Process, Outcomes, client_arguments, with_health, go_on, set_sigterm,
  set_sigint, from_config, has_server, serve_health, stop_health, loop, run_served, run, main_with,
  main,
}

-- the calls that start the server return
abbrev pub IsServed : Outcomes → Type 0
IsServed o = (o.bind ≡ ok tt) × (o.thread_start ≡ ok tt) × (o.started ≡ true)

-- those that stop it return; a thread that has ended is not told to
abbrev pub IsStopped : Outcomes → Type 0
IsStopped o =
    ((if o.is_alive then o.shutdown else ok tt) ≡ ok tt)
    × (o.server_close ≡ ok tt)
    × (o.join ≡ ok tt)

-- the socket is closed if `server_close` returns
abbrev pub Closed : Result (Unit {0}) → Bool → Type 0
Closed (err e) listening = Unit
Closed (ok x) listening = listening ≡ false

module _ (o : Outcomes) (p : Process) where
  record IsKept (q : Process) : Type 0 where
    term_kept : q.sigterm ≡ p.sigterm
    int_kept : q.sigint ≡ p.sigint
    stop_kept : q.stop ≡ p.stop
    poll_kept : q.poll ≡ p.poll

  serve_health-IsKept : IsKept (serve_health o p).0
  unfolding serve_health
  serve_health-IsKept = ground arith

  stop_health-IsKept : (b : Bool) → IsKept (stop_health o b p).0
  unfolding stop_health
  stop_health-IsKept true = ground arith
  stop_health-IsKept false = ground arith

  serve_health-IsServed : (has_server (serve_health o p) ≡ true) ↔ IsServed o
  unfolding serve_health
  serve_health-IsServed = (λ h. ground arith, λ h. ground arith)

  -- the server that did not start is closed too
  serve_health-Closed :
      p.listening ≡ false
      → has_server (serve_health o p) ≡ false
      → Closed o.server_close (serve_health o p).0.listening
  unfolding serve_health
  serve_health-Closed l h = ground arith

  stop_health-IsStopped : ((stop_health o true p).1 ≡ ok tt) ↔ IsStopped o
  unfolding stop_health
  stop_health-IsStopped = (λ h. ground arith, λ h. ground arith)

  stop_health-Closed : Closed o.server_close (stop_health o true p).0.listening
  unfolding stop_health
  stop_health-Closed = ground arith

-- The process after `main`, and how `main` ends: it returns exactly if the server starts, the loop
-- returns, and all that is undone at the end is. `start` is the bucket and the health state at first,
-- `final` those that the loop leaves.
pub record IsShutDown (o : Outcomes) (term int : Handler) (start final : PollState) (p : Process)
    (r : Result (Unit {0})) : Type 0 where
  pub sigterm_restored : p.sigterm ≡ some term
  pub sigint_restored : p.sigint ≡ some int
  pub stopped : p.stop ≡ true
  pub closed : Closed o.server_close p.listening
  pub polled : (IsServed o × (p.poll ≡ final)) ⊎ ((IsServed o → ⊥) × (p.poll ≡ start))
  pub returns : (r ≡ ok tt) ↔ (IsServed o × (o.loop_end ≡ ok tt) × IsStopped o)

module _ (T : TextTools) (rules : List Rule) (P : Pyarrow) (dumps : Value → Bytes) where
  -- what the loop leaves
  abbrev pub polled_by : Settings → Outcomes → PollState → PollState
  polled_by s o start = run_poll_loop T rules P dumps (cycle_config s) true o.turns start

  -- the process when the server is told to stop
  abbrev at_stop : Settings → Outcomes → Process → Process
  at_stop s o q = record (loop T rules P dumps s o q).0 { stop = true }

  not_served-IsShutDown :
      (s : Settings) (o : Outcomes) (term int : Handler) (q : Process) (e : Error)
      → Closed o.server_close q.listening
      → (IsServed o → ⊥)
      → (let (p, r) = run_served T rules P dumps s o (some term) (some int) (q, err e) in
          IsShutDown o term int q.poll (polled_by s o q.poll) p r)
  unfolding run_served stop_health
  not_served-IsShutDown s o term int q e l n = record {
    sigterm_restored = refl;
    sigint_restored = refl;
    stopped = refl;
    closed = l;
    polled = inr (n, refl);
    returns = (λ h. absurd (cc h), λ (h, f, g). absurd (n h));
  }

  served-IsShutDown :
      (s : Settings) (o : Outcomes) (term int : Handler) (q : Process)
      → IsServed o
      → (let (p, r) = run_served T rules P dumps s o (some term) (some int) (q, ok tt) in
          IsShutDown o term int q.poll (polled_by s o q.poll) p r)
  unfolding run_served
  served-IsShutDown s o term int q h =
      let kept = stop_health-IsKept o (at_stop s o q) true in
      let shut = stop_health-Closed o (at_stop s o q) in
      let (came, went) = stop_health-IsStopped o (at_stop s o q) in
      record {
        sigterm_restored = ground arith;
        sigint_restored = ground arith;
        stopped = ground arith;
        closed = ground arith;
        polled = inl (h, ground arith);
        returns =
            (λ e. (h, ground arith, came (ground arith)), λ (a, f, g). ground (arith, went g));
      }

  run-IsShutDown :
      (s : Settings) (o : Outcomes) (term int : Handler) (p : Process)
      (served : Process × Result (Unit {0}))
      → serve_health o p ≡ served
      → p.listening ≡ false
      → (let (q, r) = run_served T rules P dumps s o (some term) (some int) served in
          IsShutDown o term int p.poll (polled_by s o p.poll) q r)
  run-IsShutDown s o term int p (q, err e) h l =
      let unserved : has_server (serve_health o p) ≡ false = ap has_server h in
      subst
        (λ x.
          let (t, r) = run_served T rules P dumps s o (some term) (some int) (q, err e) in
          IsShutDown o term int x (polled_by s o x) t r)
        (ap (λ x. x.0.poll) (sym h) ∙ (serve_health-IsKept o p).poll_kept)
        (not_served-IsShutDown s o term int q e
          (subst (λ x. Closed o.server_close x.0.listening) h (serve_health-Closed o p l unserved))
          (λ g. absurd (cc (unserved, (serve_health-IsServed o p).1 g))))
  run-IsShutDown s o term int p (q, ok x) h l =
      subst
        (λ x.
          let (t, r) = run_served T rules P dumps s o (some term) (some int) (q, ok tt) in
          IsShutDown o term int x (polled_by s o x) t r)
        (ap (λ x. x.0.poll) (sym h) ∙ (serve_health-IsKept o p).poll_kept)
        (served-IsShutDown s o term int q ((serve_health-IsServed o p).0 (ap has_server h)))

  -- the state in which the loop begins
  abbrev pub fresh : Settings → Process → PollState
  fresh s p = record { store = p.poll.store; health = reset (initial s.poll_interval_seconds none) }

  -- the process when the server is started
  abbrev begun : Settings → Process → Process
  begun s p =
      with_health T rules P dumps s
        (record p { sigterm = some request_shutdown; sigint = some request_shutdown })

  main_with-run :
      (s : Settings) (o : Outcomes) (term int : Handler) (p : Process)
      → o.client (client_arguments s.dest) ≡ ok tt
      → p.sigterm ≡ some term
      → p.sigint ≡ some int
      → main_with T rules P dumps s o p ≡ run T rules P dumps s o (some term) (some int) (begun s p)
  unfolding main_with
  main_with-run s o term int p c t i =
      let install = set_sigterm (some request_shutdown) in
      let install_int = set_sigint (some request_shutdown) in
      ap
        (λ x.
          go_on (go_on (go_on (p, x) install) install_int)
            (λ q. run T rules P dumps s o p.sigterm p.sigint (with_health T rules P dumps s q)))
        c
      ∙ ap (λ x. run T rules P dumps s o x p.sigint (begun s p)) t
      ∙ ap (λ x. run T rules P dumps s o (some term) x (begun s p)) i

  -- Let the configuration load and the client be made, and let both signals have handlers that were
  -- installed from Python. However the server, the loop and what stops them end, `main` leaves both
  -- handlers as they were and `stop` set, and the socket closed if `server_close` returns. If the
  -- server started, the bucket and the health state are those that the loop leaves, which began
  -- without a success, and otherwise they are untouched. `main` returns exactly if the server
  -- started, the loop returned and all calls that stop the server did.
  pub main-IsShutDown :
      (upper : String → String) (loads : String → Result Value) (read_file : String → Result String)
      (env : Environment) (s : Settings) (o : Outcomes) (term int : Handler) (p : Process)
      → load upper loads read_file env ≡ ok s
      → o.client (client_arguments s.dest) ≡ ok tt
      → p.sigterm ≡ some term
      → p.sigint ≡ some int
      → p.listening ≡ false
      → (let (q, r) = main T rules P dumps upper loads read_file env o p in
          IsShutDown o term int (fresh s p) (polled_by s o (fresh s p)) q r)
  unfolding main run
  main-IsShutDown upper loads read_file env s o term int p l c t i closed =
      subst (λ x. IsShutDown o term int (fresh s p) (polled_by s o (fresh s p)) x.0 x.1)
        (sym (ap (λ x. from_config T rules P dumps x o p) l ∙ main_with-run s o term int p c t i))
        (run-IsShutDown s o term int (begun s p) (serve_health o (begun s p)) refl closed)
