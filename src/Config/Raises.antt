-- ===== src/Config/Raises.antt =====
-- What `load` of src/config.py raises: `main` of src/main.py catches `ConfigError` and nothing else.
use argo_workflows_exporter.Base.{
  ℕ, zero, suc, String, ◌≡◌, refl, sym, subst, Bool, Bool-cases, true, false, not, Option, none,
  some, List, [], ◌∷◌, ◌⊎◌, inl, inr, map, leb, if◌then◌else◌,
}
use argo_workflows_exporter.Base.Text.{is_empty, strip}
use argo_workflows_exporter.Base.Int.{ℤ, pos, negsuc}
use argo_workflows_exporter.Base.Dict.{lookup, string_eq}
use argo_workflows_exporter.Base.Lists.{keep, length}
use argo_workflows_exporter.Base.Results.{
  Result, ok, err, Error, value_error, json_decode_error, ◌>>=◌, ok_injective, os_error,
  decode_error, config_error, require, Raises, bind-Raises,
}
use argo_workflows_exporter.Json.{Value, null, get, as_obj, as_arr}
use argo_workflows_exporter.Config.{
  Environment, text_of, required, optional, positive, positive_int, log_level_aliases,
  or_config_error, log_level, s3_addressing_style, read_version, load_endpoint, load,
}
use argo_workflows_exporter.Config.Integers.{parse_int}
use argo_workflows_exporter.Config.Clusters.{
  loaded, or_raise, cluster_name, optional_field, parse_cluster, parse_all, has_repeats, is_local,
  not_empty, check_clusters, parse_clusters,
}

abbrev pub IsConfigError : Error → Type 0
IsConfigError e = e ≡ config_error

-- `json.loads` raises `JSONDecodeError`, or another `ValueError` for an integer with too many digits
abbrev pub IsDecoder : (String → Result Value) → Type 0
IsDecoder loads = (s : String) → Raises (λ e. (e ≡ json_decode_error) ⊎ (e ≡ value_error)) (loads s)

-- `ConfigError`, or a `ValueError` that `json.loads` raises on this text and that is no
-- `JSONDecodeError`
abbrev pub IsExpected : (String → Result Value) → String → Error → Type 0
IsExpected loads raw e = (e ≡ config_error) ⊎ ((e ≡ value_error) × (loads raw ≡ err value_error))

weaken-Raises {ℓ} :
    {A : Type ℓ} (P Q : Error → Type 0) (r : Result A)
    → ((e : Error) → P e → Q e)
    → Raises P r
    → Raises Q r
weaken-Raises P Q (err e) f h = f e h
weaken-Raises P Q (ok a) f h = tt

bind-Raises-eq {ℓ κ} :
    {A : Type ℓ} {B : Type κ} (P : Error → Type 0) (call : Result A) (rest : A → Result B)
    → Raises P call
    → ((x : A) → call ≡ ok x → Raises P (rest x))
    → Raises P (call >>= rest)
bind-Raises-eq P (err e) rest h k = h
bind-Raises-eq P (ok x) rest h k = k x refl

-- `open` and `read` raise `OSError` or `UnicodeError`
abbrev pub IsReader : (String → Result String) → Type 0
IsReader read_file =
    (path : String) → Raises (λ e. (e ≡ os_error) ⊎ (e ≡ decode_error)) (read_file path)

loaded-Raises :
    (loads : String → Result Value) (raw : String) (r : Result Value)
    → loads raw ≡ r
    → Raises (λ e. (e ≡ json_decode_error) ⊎ (e ≡ value_error)) r
    → Raises (IsExpected loads raw) (loaded r)
loaded-Raises loads raw (ok v) l h = tt
loaded-Raises loads raw (err json_decode_error) l h = inl refl
loaded-Raises loads raw (err value_error) l h = inr (refl, l)
loaded-Raises loads raw (err _) l (inl h) = absurd (cc h)
loaded-Raises loads raw (err _) l (inr h) = absurd (cc h)

or_raise-Raises {ℓ} : {A : Type ℓ} (o : Option A) → Raises IsConfigError (or_raise o)
or_raise-Raises none = refl
or_raise-Raises (some a) = tt

or_config_error-Raises {ℓ} : {A : Type ℓ} (o : Option A) → Raises IsConfigError (or_config_error o)
or_config_error-Raises none = refl
or_config_error-Raises (some a) = tt

refused-Raises :
    (b : Bool) (v : String) → Raises IsConfigError (if b then err config_error else ok v)
refused-Raises true v = refl
refused-Raises false v = tt

accepted-Raises :
    (b : Bool) (v : String) → Raises IsConfigError (if b then ok v else err config_error)
accepted-Raises true v = tt
accepted-Raises false v = refl

condition-Raises : (b : Bool) → Raises IsConfigError (require b config_error)
condition-Raises true = tt
condition-Raises false = refl

cluster_name-Raises : (v : Value) → Raises IsConfigError (cluster_name v)
cluster_name-Raises (Value.text s) = refused-Raises (is_empty s) s
cluster_name-Raises _ = refl

optional_field-Raises : (v : Value) → Raises IsConfigError (optional_field v)
optional_field-Raises null = tt
optional_field-Raises (Value.text s) = tt
optional_field-Raises _ = refl

parse_cluster-Raises : (v : Value) → Raises IsConfigError (parse_cluster v)
unfolding parse_cluster
parse_cluster-Raises v = bind-Raises _ (or_raise (as_obj v)) _ (or_raise-Raises (as_obj v)) (λ fs.
    bind-Raises _ (cluster_name (get "name" fs)) _ (cluster_name-Raises (get "name" fs)) (λ name.
      bind-Raises _ (optional_field (get "base_url" fs)) _
        (optional_field-Raises (get "base_url" fs))
        (λ url.
          bind-Raises _ (optional_field (get "namespace" fs)) _
            (optional_field-Raises (get "namespace" fs)) (λ n. tt))))

parse_all-Raises : (items : List Value) → Raises IsConfigError (parse_all items)
unfolding parse_all
parse_all-Raises [] = tt
parse_all-Raises (item ∷ items) =
    bind-Raises _ (parse_cluster item) _ (parse_cluster-Raises item)
      (λ c. bind-Raises _ (parse_all items) _ (parse_all-Raises items) (λ cs. tt))

-- what is done with the decoded text
decoded-Raises :
    (value : Value)
    → Raises IsConfigError (do
      items ← or_raise (as_arr value)
      present ← require (not_empty items) config_error
      clusters ← parse_all items
      check_clusters clusters)
unfolding check_clusters
decoded-Raises value =
    bind-Raises _ (or_raise (as_arr value)) _ (or_raise-Raises (as_arr value)) (λ items.
      bind-Raises _ (require (not_empty items) config_error) _ (condition-Raises (not_empty items))
        (λ u. bind-Raises _ (parse_all items) _ (parse_all-Raises items) (λ cs.
          bind-Raises _ (require (not (has_repeats (map (λ c. c.name) cs))) config_error) _
            (condition-Raises (not (has_repeats (map (λ c. c.name) cs))))
            (λ u.
              bind-Raises _ (require (leb (length (keep is_local cs)) 1) config_error) _
                (condition-Raises (leb (length (keep is_local cs)) 1)) (λ u. tt)))))

parse_clusters-Raises :
    (loads : String → Result Value) (raw : String)
    → IsDecoder loads
    → Raises (IsExpected loads raw) (parse_clusters loads raw)
unfolding parse_clusters
parse_clusters-Raises loads raw decodes =
    bind-Raises _ (loaded (loads raw)) _ (loaded-Raises loads raw (loads raw) refl (decodes raw))
      (λ value.
        weaken-Raises IsConfigError (IsExpected loads raw) _ (λ e h. inl h) (decoded-Raises value))

non_empty-strip :
    (value raw : String)
    → (if is_empty value then Result.err config_error else ok value) ≡ ok raw
    → value ≡ raw
non_empty-strip value raw h = elim (Bool-cases (is_empty value)) [
  | inl e ↦ absurd (cc (rw e at h))
  | inr e ↦ ok_injective (rw e at h)
]

required-strip :
    (env : Environment) (name raw : String)
    → required env name ≡ ok raw
    → strip (text_of (env name)) ≡ raw
unfolding required
required-strip env name raw h = non_empty-strip (strip (text_of (env name))) raw h

required-Raises : (env : Environment) (name : String) → Raises IsConfigError (required env name)
unfolding required
required-Raises env name = refused-Raises _ (strip (text_of (env name)))

positive-Raises : (n : Option ℤ) → Raises IsConfigError (positive n)
positive-Raises none = refl
positive-Raises (some (pos zero)) = refl
positive-Raises (some (pos (suc n))) = tt
positive-Raises (some (negsuc n)) = refl

positive_int-Raises :
    (env : Environment) (name default : String)
    → Raises IsConfigError (positive_int env name default)
unfolding positive_int
positive_int-Raises env name default = positive-Raises (parse_int (optional env name default))

s3_addressing_style-Raises : (env : Environment) → Raises IsConfigError (s3_addressing_style env)
unfolding s3_addressing_style
s3_addressing_style-Raises env =
    accepted-Raises _ (optional env "DEST_S3_ADDRESSING_STYLE" "virtual")

log_level-Raises :
    (upper : String → String) (env : Environment) → Raises IsConfigError (log_level upper env)
unfolding log_level
log_level-Raises upper env =
    or_config_error-Raises (lookup (upper (optional env "LOG_LEVEL" "INFO")) log_level_aliases)

read_version-Raises :
    (r : Result String)
    → Raises (λ e. (e ≡ os_error) ⊎ (e ≡ decode_error)) r
    → Raises IsConfigError (read_version r)
unfolding read_version
read_version-Raises (ok v) h = tt
read_version-Raises (err os_error) h = tt
read_version-Raises (err decode_error) h = tt
read_version-Raises (err _) (inl h) = absurd (cc h)
read_version-Raises (err _) (inr h) = absurd (cc h)

load_endpoint-Raises : (env : Environment) → Raises IsConfigError (load_endpoint env)
unfolding load_endpoint
load_endpoint-Raises env =
    bind-Raises _ (required env "DEST_S3_ENDPOINT") _ (required-Raises env _) (λ a.
      bind-Raises _ (required env "DEST_S3_ACCESS_KEY_ID") _ (required-Raises env _) (λ b.
        bind-Raises _ (required env "DEST_S3_SECRET_ACCESS_KEY") _ (required-Raises env _) (λ c.
          bind-Raises _ (required env "DEST_S3_BUCKET") _ (required-Raises env _) (λ d.
            bind-Raises _ (s3_addressing_style env) _ (s3_addressing_style-Raises env) (λ s. tt)))))

caught {ℓ} :
    {A : Type ℓ} (loads : String → Result Value) (raw : String) (r : Result A)
    → Raises IsConfigError r
    → Raises (IsExpected loads raw) r
caught loads raw r h = weaken-Raises IsConfigError (IsExpected loads raw) r (λ e k. inl k) h

number-Raises {ℓ} :
    (loads : String → Result Value) (raw : String) (env : Environment) {B : Type ℓ}
    (name default : String) (rest : ℕ → Result B)
    → ((n : ℕ) → Raises (IsExpected loads raw) (rest n))
    → Raises (IsExpected loads raw) (positive_int env name default >>= rest)
number-Raises loads raw env name default rest k =
    bind-Raises _ (positive_int env name default) _
      (caught loads raw _ (positive_int-Raises env name default)) k

-- Let `json.loads` raise `JSONDecodeError` or another `ValueError`, and the reading of a file
-- `OSError` or `UnicodeError`. Whatever the environment holds, `load` raises nothing but
-- `ConfigError`, which `main` catches, except where `json.loads` raises another `ValueError` than
-- `JSONDecodeError` on the stripped text of `CLUSTERS_JSON`: then it may raise that.
pub load-IsConfigError :
    (upper : String → String) (loads : String → Result Value) (read_file : String → Result String)
    (env : Environment)
    → IsDecoder loads
    → IsReader read_file
    → Raises
        (IsExpected loads (strip (text_of (env "CLUSTERS_JSON"))))
        (load upper loads read_file env)
unfolding load
load-IsConfigError upper loads read_file env decodes reads =
    let text = strip (text_of (env "CLUSTERS_JSON")) in
    let P = IsExpected loads text in
    bind-Raises-eq P (required env "CLUSTERS_JSON") _
      (caught loads text _ (required-Raises env "CLUSTERS_JSON"))
      (λ raw q.
        bind-Raises P (parse_clusters loads raw) _
          (subst (λ x. Raises (IsExpected loads x) (parse_clusters loads raw))
            (sym (required-strip env "CLUSTERS_JSON" raw q))
            (parse_clusters-Raises loads raw decodes))
          (λ cs.
            bind-Raises P (load_endpoint env) _ (caught loads text _ (load_endpoint-Raises env))
              (λ dest.
                bind-Raises P (read_version (read_file (optional env "VERSION_FILE" "VERSION"))) _
                  (caught loads text _ (read_version-Raises _ (reads _)))
                  (λ v. number-Raises loads text env "POLL_INTERVAL_SECONDS" "300" _ (λ p.
                    number-Raises loads text env "RUN_RETENTION_DAYS" "7" _ (λ r.
                      number-Raises loads text env "HTTP_TIMEOUT_SECONDS" "10" _ (λ t.
                        number-Raises loads text env "LIST_PAGE_SIZE" "500" _ (λ n.
                          number-Raises loads text env "HEALTH_PORT" "8080" _ (λ h.
                            bind-Raises P (log_level upper env) _
                              (caught loads text _ (log_level-Raises upper env)) (λ l. tt))))))))))
