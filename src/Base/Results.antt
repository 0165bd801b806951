-- ===== src/Base/Results.antt =====
-- What a call of a Python function comes to: a value, or the exception that it raises. The
-- exceptions are those that the code raises, catches or lets through.
use mathlib.Core.Path.{◌≡◌, refl}
use mathlib.Core.Logic.{◌⊎◌, inl, inr}
use mathlib.Core.Bool.{Bool, true, false}

pub data Error : Type 0 where
  value_error type_error key_error overflow_error : Error
  -- `KubernetesResponseError` and `MalformedWorkflowError`, both subclasses of `ValueError`
  response_error malformed_workflow : Error
  -- `json.JSONDecodeError`, a subclass of `ValueError` too; an integer of more digits than `int()`
  -- takes makes `json.loads` raise a `ValueError` that is none
  json_decode_error : Error
  -- `MetaSchemaError`, a direct subclass of `Exception`
  meta_schema_error : Error
  -- what a call of a storage, HTTP or codec library raises
  client_error os_error decode_error encode_error zlib_error : Error
  -- `AttributeError`, and `re.error`, a direct subclass of `Exception`
  attribute_error re_error : Error
  -- `ConfigError`, a direct subclass of `Exception`
  config_error : Error
  -- `RuntimeError`, and `SystemExit`, which `sys.exit` raises
  runtime_error system_exit : Error

pub data Result {ℓ} (A : Type ℓ) : Type ℓ where
  err : Error → Result A
  ok : A → Result A

-- The rest of a body runs on the value of a call that returns.
infixl 5 ◌>>=◌
abbrev pub ◌>>=◌ {ℓ κ} : {A : Type ℓ} {B : Type κ} → Result A → (A → Result B) → Result B
err e >>= rest = err e
ok value >>= rest = rest value

-- `if not b: raise e`
abbrev pub require : Bool → Error → Result (Unit {0})
require false e = err e
require true e = ok tt

-- Inversion of a bind that returns.
pub bind-eq-ok {ℓ κ} :
    {A : Type ℓ} {B : Type κ} (call : Result A) (rest : A → Result B) {value : B}
    → (call >>= rest) ≡ ok value
    → (x : A) × (call ≡ ok x) × (rest x ≡ ok value)
bind-eq-ok (err e) rest returns = cc
bind-eq-ok (ok x) rest returns = (x, refl, returns)

pub ok_injective {ℓ} : {A : Type ℓ} {a b : A} → Result.ok a ≡ ok b → a ≡ b
ok_injective h = cc h

-- what a call may raise
abbrev pub Raises {ℓ} : {A : Type ℓ} → (Error → Type 0) → Result A → Type 0
Raises P (err e) = P e
Raises P (ok value) = Unit

pub bind-Raises {ℓ κ} :
    {A : Type ℓ} {B : Type κ} (P : Error → Type 0) (call : Result A) (rest : A → Result B)
    → Raises P call
    → ((x : A) → Raises P (rest x))
    → Raises P (call >>= rest)
bind-Raises P (err e) rest h k = h
bind-Raises P (ok x) rest h k = k x

-- Inversion of a bind that raises.
pub bind-eq-err {ℓ κ} :
    {A : Type ℓ} {B : Type κ} (call : Result A) (rest : A → Result B) {e : Error}
    → (call >>= rest) ≡ err e
    → (call ≡ err e) ⊎ ((x : A) × (call ≡ ok x) × (rest x ≡ err e))
bind-eq-err (err f) rest raises = inl cc
bind-eq-err (ok x) rest raises = inr (x, refl, raises)
