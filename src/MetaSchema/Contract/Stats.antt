-- ===== src/MetaSchema/Contract/Stats.antt =====
-- The rules across fields, on the entries of `cluster_stats`.
use argo_workflows_exporter.Base.{
  ℕ, suc, ◌≡◌, refl, ap, ◌↔◌, true, false, not, List, [], ◌∷◌, map, arith, if◌then◌else◌,
}
use argo_workflows_exporter.Base.Lists.{All}
use argo_workflows_exporter.Base.Dict.{string_eq}
use argo_workflows_exporter.Base.Int.{pos, pos+ℤpos}
use argo_workflows_exporter.Json.{Value, get}
use argo_workflows_exporter.Sidecar.{stat_names, included_rows, ClusterStat, stat_value}
use argo_workflows_exporter.MetaSchema.Schema.{not_ok_with_rows}
use argo_workflows_exporter.MetaSchema.CrossField.{
  not_ok_rows, accounted, accounted_rows, listed_names, not_ok_violations,
}
use argo_workflows_exporter.MetaSchema.Names.{texts}
use argo_workflows_exporter.MetaSchema.Contract.{append_iff, report_iff}

pub listed_names-stats :
    (cs : List ClusterStat) → listed_names (map stat_value cs) ≡ texts (stat_names cs)
unfolding listed_names get
listed_names-stats [] = refl
listed_names-stats (c ∷ cs) = ap (◌∷◌ (Value.text c.name)) (listed_names-stats cs)

rows-stat :
    (c : ClusterStat) → accounted_rows (stat_value c) ≡ pos (if c.answered then c.workflows else 0)
unfolding accounted_rows get
rows-stat c = ground arith

pub accounted-stats :
    (cs : List ClusterStat) → accounted (map stat_value cs) ≡ pos (included_rows cs)
unfolding accounted
accounted-stats [] = refl
accounted-stats (c ∷ cs) =
    rw (rows-stat c, accounted-stats cs)
      (pos+ℤpos (if c.answered then c.workflows else 0) (included_rows cs))

not_ok_stat :
    (c : ClusterStat)
    → (not (not_ok_rows (stat_value c)) ≡ true) ↔ (c.answered ≡ false → c.workflows ≡ 0)
unfolding get
not_ok_stat c = ground arith

pub not_ok-stats :
    (cs : List ClusterStat) (i : ℕ)
    → (not_ok_violations (map stat_value cs) i ≡ [])
      ↔ All (λ c. c.answered ≡ false → c.workflows ≡ 0) cs
unfolding not_ok_violations
not_ok-stats [] i = (λ h. tt, λ h. refl)
not_ok-stats (c ∷ cs) i =
    append_iff (report_iff (not (not_ok_rows (stat_value c))) (not_ok_with_rows i) (not_ok_stat c))
      (not_ok-stats cs (suc i))
