-- ===== src/Examples/Failures.antt =====
-- The theorem on the failure columns, on a concrete message.
use argo_workflows_exporter.Base.{String, ◌≡◌, ◌⊎◌, none}
use argo_workflows_exporter.Json.{null, text}
use argo_workflows_exporter.Taxonomy.{failure_columns}
use argo_workflows_exporter.Taxonomy.Laws.{HasNothing, IsEvidence, AreOf, failure_columns-IsClass}
use argo_workflows_exporter.Examples.Data.{plain_text, oom_rules}

failure_columns-IsClass_example :
    (HasNothing null
      × HasNothing (text "OOMKilled")
      × ((failure_columns plain_text oom_rules null (text "OOMKilled")).failure_fingerprint ≡ none)
      × ((failure_columns plain_text oom_rules null (text "OOMKilled")).failure_class ≡ none))
    ⊎ ((evidence : String) × IsEvidence null (text "OOMKilled") evidence
        × AreOf plain_text oom_rules evidence
            (failure_columns plain_text oom_rules null (text "OOMKilled")))
failure_columns-IsClass_example =
    failure_columns-IsClass plain_text oom_rules null (text "OOMKilled")
