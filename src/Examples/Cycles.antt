-- ===== src/Examples/Cycles.antt =====
-- The theorems on a cycle, on concrete calls.
use argo_workflows_exporter.Base.{◌≡◌, ◌↔◌}
use argo_workflows_exporter.Cycle.{Generation, run_cycle, completed}
use argo_workflows_exporter.Cycle.Completes.{Succeeds, run_cycle-completes}
use argo_workflows_exporter.Examples.Data.{
  plain_text, oom_rules, pyarrow, dumps, config, calls, old_store,
}

run_cycle-completes_example :
    ((run_cycle plain_text oom_rules pyarrow dumps config calls old_store).1 ≡ completed)
    ↔ ((g : Generation) × Succeeds plain_text oom_rules pyarrow dumps config calls g)
run_cycle-completes_example =
    run_cycle-completes plain_text oom_rules pyarrow dumps config calls old_store
