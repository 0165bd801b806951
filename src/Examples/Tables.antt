-- ===== src/Examples/Tables.antt =====
-- The theorems on stored tables and on the table of failure classes, on a table with an old column
-- and on the table of one class.
use argo_workflows_exporter.Storage.Conform.{
  conform_columns, Schema, Table, conform, AreConformed, KeepsLength, conform-AreConformed,
}
use argo_workflows_exporter.Taxonomy.Loader.{
  compile_all, load_rule, load_rules, load_failure_classes, as_loaded, IsUnmatched,
  failure_class-unknown,
}
use argo_workflows_exporter.Json.{get, items, Value, obj, arr, text, field, end, of_items}
use argo_workflows_exporter.Base.{ℕ, ◌≡◌, ◌↔◌, refl, sym, ap, String, some, List, [], ◌∷◌, arith}
use argo_workflows_exporter.Base.Dict.{lookup}
use argo_workflows_exporter.Base.Lists.{All, length}
use argo_workflows_exporter.Base.Results.{Result, ok, err, type_error, ok_injective}
use argo_workflows_exporter.Taxonomy.{failure_class, usable_message}
use argo_workflows_exporter.Examples.Data.{plain_text, oom_rules}

abbrev compile : Value → Result String
compile (text s) = ok s
compile _ = err type_error

abbrev table_of_classes : Result Value
table_of_classes = ok (
    arr (
      of_items (
        obj (
          field "class" (text "oom")
            (field "patterns" (arr (of_items (text "OOMKilled" ∷ []))) end))
        ∷ [])))

classes : load_failure_classes compile table_of_classes ≡ ok (as_loaded oom_rules)
unfolding load_failure_classes of_items load_rules items load_rule get compile_all
classes = refl

exit_usable : usable_message (text "exit code 1") ≡ some "exit code 1"
unfolding usable_message
exit_usable = refl

failure_class-unknown_example :
    (failure_class plain_text oom_rules (text "exit code 1") ≡ some "unknown")
    ↔ All (IsUnmatched plain_text "exit code 1") oom_rules
failure_class-unknown_example =
    failure_class-unknown compile table_of_classes plain_text oom_rules "exit code 1" classes
      exit_usable

-- cells that are numbers, 0 for null, and a cast that keeps them
abbrev cast : String → List ℕ → Result (List ℕ)
cast kind column = ok column

keeps : KeepsLength cast 0
keeps kind column result h = same_length column result h
  where
    same_length : (a b : List ℕ) → Result.ok a ≡ ok b → length b ≡ length a
    same_length a b h = ap length (ok_injective (sym h))

abbrev stored : Table ℕ String
stored = record { num_rows = 2; columns = ("dropped", 7 ∷ 8 ∷ []) ∷ ("uid", 1 ∷ 2 ∷ []) ∷ [] }

abbrev newer : Schema ℕ String
newer = ("uid", "string") ∷ ("failed_step", "string") ∷ []

abbrev shaped : Table ℕ String
shaped = record { num_rows = 2; columns = ("uid", 1 ∷ 2 ∷ []) ∷ ("failed_step", 0 ∷ 0 ∷ []) ∷ [] }

reshaped : conform cast 0 stored newer ≡ ok shaped
unfolding conform conform_columns lookup
reshaped = refl

conform-AreConformed_example :
    (shaped.num_rows ≡ 2) × AreConformed cast 0 stored newer shaped.columns
conform-AreConformed_example =
    conform-AreConformed cast 0 stored newer shaped keeps (refl, (refl, tt)) (omega arith) reshaped
