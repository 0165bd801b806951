-- ===== src/Examples/Readers.antt =====
-- The theorems on a reader and on the sidecar's schema, on concrete publications.
use argo_workflows_exporter.Base.{◌≡◌, refl, ◌↔◌, ◌⊎◌, none, some, [], ◌∷◌}
use argo_workflows_exporter.Base.Int.{pos}
use argo_workflows_exporter.Base.Results.{ok}
use argo_workflows_exporter.Sidecar.{sidecar_value}
use argo_workflows_exporter.MetaSchema.Schema.{root, meta_schema, check}
use argo_workflows_exporter.MetaSchema.CrossField.{validate}
use argo_workflows_exporter.MetaSchema.Contract.{Conforms, check-Conforms}
use argo_workflows_exporter.MetaSchema.Contract.Publishable.{IsPublishable, validate-IsPublishable}
use argo_workflows_exporter.Storage.{body}
use argo_workflows_exporter.Consumer.{
  Publication, PublicationReason, aware, whole, rejection_reason,
}
use argo_workflows_exporter.Consumer.Read.{fresh_result, read_generation_result}
use argo_workflows_exporter.Consumer.Complete.{IsComplete, rejection_reason-IsComplete}
use argo_workflows_exporter.Consumer.Reading.{
  IsRead, IsFresh, IsFallback, read_generation_result-cases,
}
use argo_workflows_exporter.Consumer.Accepts.{read_generation_result-fresh}
use argo_workflows_exporter.Cycle.Fresh.{published, computed-IsComplete, Holds-IsRead}
use argo_workflows_exporter.Cycle.Parts.{computed-Parts}
use argo_workflows_exporter.Examples.Data.{
  plain_text, oom_rules, pyarrow, dumps, loads, config, calls, new_generation, new_sidecar,
}
use argo_workflows_exporter.Examples.Facts.{stamped, computed, clock, current}

abbrev candidate : Publication
candidate = published new_generation

complete : IsComplete pyarrow candidate
complete =
    computed-IsComplete plain_text oom_rules pyarrow dumps loads config calls new_generation stamped
      (computed-Parts plain_text oom_rules pyarrow dumps config calls new_generation computed)

is_read :
    IsRead pyarrow loads
      (λ i key. body (1 ∷ []))
      "argo"
      (some (whole (pos 60)))
      (aware clock)
      candidate
is_read =
    Holds-IsRead plain_text oom_rules pyarrow dumps loads config calls new_generation
      (λ key. some (1 ∷ [])) (some (whole (pos 60))) (aware clock) stamped refl
      (computed-Parts plain_text oom_rules pyarrow dumps config calls new_generation computed)
      (record { workflows_held = refl; runs_held = refl; meta_held = refl }) current

rejection_reason-IsComplete_example :
    (rejection_reason pyarrow (some candidate) ≡ none) ↔ IsComplete pyarrow candidate
rejection_reason-IsComplete_example = rejection_reason-IsComplete pyarrow candidate

read_generation_result-fresh_example :
    read_generation_result pyarrow loads
      (λ i key. body (1 ∷ []))
      "argo"
      none
      (some (whole (pos 60)))
      (some (aware clock))
      0
    ≡ ok (fresh_result candidate)
read_generation_result-fresh_example =
    read_generation_result-fresh pyarrow loads (λ i key. body (1 ∷ [])) "argo" none
      (some (whole (pos 60))) (some (aware clock)) 0 candidate is_read

read_generation_result-cases_example :
    IsFresh pyarrow loads
      (λ i key. body (1 ∷ []))
      "argo"
      (some (whole (pos 60)))
      (aware clock)
      (fresh_result candidate)
    ⊎ (IsFallback pyarrow loads (λ i key. body (1 ∷ [])) "argo" none (fresh_result candidate)
        × ((reason : PublicationReason) × ((fresh_result candidate).reason ≡ some reason)))
read_generation_result-cases_example =
    read_generation_result-cases pyarrow loads (λ i key. body (1 ∷ [])) "argo" none
      (some (whole (pos 60))) (some (aware clock)) 0 (fresh_result candidate)
      (read_generation_result-fresh pyarrow loads (λ i key. body (1 ∷ [])) "argo" none
        (some (whole (pos 60))) (some (aware clock)) 0 candidate is_read)

validate-IsPublishable_example :
    (validate (sidecar_value new_sidecar) ≡ ok tt) ↔ IsPublishable new_sidecar
validate-IsPublishable_example = validate-IsPublishable new_sidecar

check-Conforms_example :
    (check meta_schema (sidecar_value new_sidecar) root ≡ [])
    ↔ Conforms meta_schema (sidecar_value new_sidecar)
check-Conforms_example = check-Conforms meta_schema (sidecar_value new_sidecar) root
