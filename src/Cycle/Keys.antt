-- ===== src/Cycle/Keys.antt =====
-- The keys of the three objects are different, and what a write leaves at each key.
use text.Mathlib.TextEquality.{eq_iff}
use text.Mathlib.TextLemmas.{append_cancel_left}
use argo_workflows_exporter.Base.{String, ◌≡◌, ◌≢◌, some, inl, inr, arith, Bool-cases}
use argo_workflows_exporter.Base.Text.{is_empty}
use argo_workflows_exporter.Storage.{Bytes, object_key, normalize_s3_prefix}
use argo_workflows_exporter.Cycle.{Store, write}

-- Objects of different names have different keys under each prefix.
pub object_key-Injective : (prefix a b : String) → object_key prefix a ≡ object_key prefix b → a ≡ b
unfolding object_key
object_key-Injective prefix a b h = elim (Bool-cases (is_empty (normalize_s3_prefix prefix))) [
  | inl e ↦ rw e at h
  | inr e ↦
      append_cancel_left "/" a b (append_cancel_left (normalize_s3_prefix prefix) _ _ (rw e at h))
]

pub write-same :
    (key : String) (payload : Bytes) (store : Store) → write key payload store key ≡ some payload
write-same key payload store = ground (arith, eq_iff key key)

pub write-other :
    (key : String) (payload : Bytes) (store : Store) (k : String)
    → k ≢ key
    → write key payload store k ≡ store k
write-other key payload store k h = ground (arith, eq_iff k key)
