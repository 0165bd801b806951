-- ===== src/Examples/Runs.antt =====
-- The theorem on `main`, in a run whose server does not close in order.
use argo_workflows_exporter.Base.{refl, true, false, some}
use argo_workflows_exporter.Base.Results.{ok, err, os_error}
use argo_workflows_exporter.Process.{Process, Outcomes, earlier, main}
use argo_workflows_exporter.Process.Shutdown.{IsShutDown, fresh, polled_by, main-IsShutDown}
use argo_workflows_exporter.Examples.Data.{plain_text, oom_rules, pyarrow, dumps}
use argo_workflows_exporter.Examples.Settings.{
  environment, decode, no_file, settings, loads-settings,
}
use argo_workflows_exporter.Examples.Turns.{begin, one_turn}

abbrev at_first : Process
at_first = record {
  sigterm = some (earlier 0);
  sigint = some (earlier 1);
  listening = false;
  stop = false;
  poll = begin;
}

-- the thread of the server has ended by itself, and its socket cannot be closed
abbrev outcomes : Outcomes
outcomes = record {
  client = λ arguments. ok tt;
  bind = ok tt;
  thread_start = ok tt;
  started = true;
  turns = one_turn;
  loop_end = ok tt;
  is_alive = false;
  shutdown = ok tt;
  server_close = err os_error;
  join = ok tt;
}

main-IsShutDown_example :
    (let (q, r) =
        main plain_text oom_rules pyarrow dumps
          (λ s. s)
          decode
          no_file
          environment
          outcomes
          at_first in
      IsShutDown outcomes
        (earlier 0)
        (earlier 1)
        (fresh plain_text oom_rules pyarrow dumps settings at_first)
        (polled_by plain_text oom_rules pyarrow dumps settings outcomes
          (fresh plain_text oom_rules pyarrow dumps settings at_first))
        q
        r)
main-IsShutDown_example =
    main-IsShutDown plain_text oom_rules pyarrow dumps (λ s. s) decode no_file environment settings
      outcomes (earlier 0) (earlier 1) at_first loads-settings refl refl refl refl
