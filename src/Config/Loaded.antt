-- ===== src/Config/Loaded.antt =====
-- What a configuration that `load` of src/config.py returns is like.
use argo_workflows_exporter.Base.{
  ℕ, suc, ◌≤◌, String, ◌≡◌, refl, ap, subst, inl, inr, true, false, Option, none, some, arith,
  Bool-cases, if◌then◌else◌,
}
use argo_workflows_exporter.Base.Text.{is_empty, strip, text_eq}
use argo_workflows_exporter.Base.Int.{ℤ, pos}
use argo_workflows_exporter.Base.Dict.{lookup, string_eq, In-lookup}
use argo_workflows_exporter.Base.Lists.{All, All-In, any}
use argo_workflows_exporter.Base.Results.{Result, ok, err, config_error, bind-eq-ok, ok_injective}
use argo_workflows_exporter.Json.{Value}
use argo_workflows_exporter.MetaSchema.Schema.{char_count}
use argo_workflows_exporter.Config.{
  Environment, text_of, required, optional, positive, positive_int, log_level_aliases,
  or_config_error, log_level, s3_addressing_styles, s3_addressing_style, or_unknown, is_unreadable,
  read_version, S3Endpoint, Settings, load_endpoint, load,
}
use argo_workflows_exporter.Config.Integers.{parse_int}
use argo_workflows_exporter.Config.Clusters.{parse_clusters}
use argo_workflows_exporter.Config.Clusters.Valid.{AreValid, parse_clusters-AreValid, text_size}

pub record IsEndpoint (dest : S3Endpoint) : Type 0 where
  pub has_url : 1 ≤ char_count dest.endpoint_url
  pub has_key_id : 1 ≤ char_count dest.access_key_id
  pub has_key : 1 ≤ char_count dest.secret_access_key
  pub has_bucket : 1 ≤ char_count dest.bucket
  pub has_region : 1 ≤ char_count dest.region
  pub has_style : any (text_eq dest.addressing_style) s3_addressing_styles ≡ true

-- a level of `logging`, and no alias of one
abbrev pub IsLevel : String → Type 0
IsLevel level = lookup level log_level_aliases ≡ some level

pub record IsLoaded (s : Settings) : Type 0 where
  pub valid_clusters : AreValid s.clusters
  pub valid_dest : IsEndpoint s.dest
  pub has_version : 1 ≤ char_count s.version
  pub polls : 1 ≤ s.poll_interval_seconds
  pub retains : 1 ≤ s.run_retention_days
  pub waits : 1 ≤ s.http_timeout_seconds
  pub pages : 1 ≤ s.page_size
  pub serves : 1 ≤ s.health_port
  pub is_level : IsLevel s.log_level

non_empty-eq :
    (value v : String)
    → (if is_empty value then Result.err config_error else ok value) ≡ ok v
    → 1 ≤ char_count v
non_empty-eq value v h = elim (Bool-cases (is_empty value)) [
  | inl e ↦ absurd (cc (rw e at h))
  | inr e ↦ subst (λ x. 1 ≤ char_count x) (ok_injective (rw e at h)) (text_size value e)
]

required-size : (env : Environment) (name v : String) → required env name ≡ ok v → 1 ≤ char_count v
unfolding required
required-size env name v h = non_empty-eq (strip (text_of (env name))) v h

optional-size :
    (env : Environment) (name default : String)
    → is_empty default ≡ false
    → 1 ≤ char_count (optional env name default)
unfolding optional
optional-size env name default d = elim (Bool-cases (is_empty (strip (text_of (env name))))) [
  | inl e ↦ rw e (text_size default d)
  | inr e ↦ rw e (text_size (strip (text_of (env name))) e)
]

positive-size : (n : Option ℤ) (m : ℕ) → positive n ≡ ok m → 1 ≤ m
positive-size none m h = absurd (cc h)
positive-size (some (pos (suc n))) m h = subst (λ x. 1 ≤ x) (ok_injective h) (omega arith)
positive-size (some _) m h = absurd (cc h)

positive_int-size :
    (env : Environment) (name default : String) (m : ℕ)
    → positive_int env name default ≡ ok m
    → 1 ≤ m
unfolding positive_int
positive_int-size env name default m h = positive-size (parse_int (optional env name default)) m h

or_unknown-size : (s : String) → 1 ≤ char_count (or_unknown s)
or_unknown-size s = elim (Bool-cases (is_empty s)) [
  | inl e ↦ rw e (text_size "unknown" refl)
  | inr e ↦ rw e (text_size s e)
]

read_version-size : (r : Result String) (v : String) → read_version r ≡ ok v → 1 ≤ char_count v
unfolding read_version
read_version-size (ok version) v h =
    subst (λ x. 1 ≤ char_count x) (ok_injective h) (or_unknown-size (strip version))
read_version-size (err e) v h = elim (Bool-cases (is_unreadable e)) [
  | inl u ↦ subst (λ x. 1 ≤ char_count x) (ok_injective (rw u at h)) (text_size "unknown" refl)
  | inr u ↦ absurd (cc (rw u at h))
]

style-known :
    (env : Environment) (style : String)
    → s3_addressing_style env ≡ ok style
    → any (text_eq style) s3_addressing_styles ≡ true
unfolding s3_addressing_style
style-known env style h =
    elim (Bool-cases
      (any (text_eq (optional env "DEST_S3_ADDRESSING_STYLE" "virtual")) s3_addressing_styles)) [
        | inl e ↦
            subst (λ x. any (text_eq x) s3_addressing_styles ≡ true) (ok_injective (rw e at h)) e
        | inr e ↦ absurd (cc (rw e at h))
      ]

levels : All (λ (a : String × String). IsLevel a.1) log_level_aliases
unfolding lookup
levels = (refl, (refl, (refl, (refl, (refl, (refl, (refl, (refl, tt))))))))

or_config_error-some : (o : Option String) (v : String) → or_config_error o ≡ ok v → o ≡ some v
or_config_error-some none v h = absurd (cc h)
or_config_error-some (some a) v h = ap some (ok_injective h)

log_level-IsLevel :
    (upper : String → String) (env : Environment) (level : String)
    → log_level upper env ≡ ok level
    → IsLevel level
unfolding log_level
log_level-IsLevel upper env level h =
    let raw = upper (optional env "LOG_LEVEL" "INFO") in
    All-In (λ (a : String × String). IsLevel a.1) log_level_aliases (raw, level) levels
      (In-lookup raw level log_level_aliases
        (or_config_error-some (lookup raw log_level_aliases) level h))

load_endpoint-IsEndpoint :
    (env : Environment) (dest : S3Endpoint) → load_endpoint env ≡ ok dest → IsEndpoint dest
unfolding load_endpoint
load_endpoint-IsEndpoint env dest h =
    let (url, u, h) = bind-eq-ok (required env "DEST_S3_ENDPOINT") _ h in
    let (key_id, i, h) = bind-eq-ok (required env "DEST_S3_ACCESS_KEY_ID") _ h in
    let (key, k, h) = bind-eq-ok (required env "DEST_S3_SECRET_ACCESS_KEY") _ h in
    let (bucket, b, h) = bind-eq-ok (required env "DEST_S3_BUCKET") _ h in
    let (style, s, h) = bind-eq-ok (s3_addressing_style env) _ h in
    subst IsEndpoint (ok_injective h) (record {
      has_url = required-size env _ url u;
      has_key_id = required-size env _ key_id i;
      has_key = required-size env _ key k;
      has_bucket = required-size env _ bucket b;
      has_region = optional-size env _ "us-east-1" refl;
      has_style = style-known env style s;
    })

module _ (upper : String → String) (loads : String → Result Value)
    (read_file : String → Result String) where
  -- A configuration that `load` returns has clusters, with different names that are not empty and
  -- at most one that is local; an endpoint whose fields, the region too, are not empty, and a known addressing style; a
  -- version; a positive poll interval, retention, timeout, page size and port; and a log level of
  -- `logging`.
  pub load-IsLoaded :
      (env : Environment) (s : Settings) → load upper loads read_file env ≡ ok s → IsLoaded s
  unfolding load
  load-IsLoaded env s h =
      let (raw, r, h) = bind-eq-ok (required env "CLUSTERS_JSON") _ h in
      let (clusters, c, h) = bind-eq-ok (parse_clusters loads raw) _ h in
      let (dest, d, h) = bind-eq-ok (load_endpoint env) _ h in
      let (version, v, h) =
        bind-eq-ok (read_version (read_file (optional env "VERSION_FILE" "VERSION"))) _ h in
      let (poll, p, h) = bind-eq-ok (positive_int env "POLL_INTERVAL_SECONDS" "300") _ h in
      let (retention, t, h) = bind-eq-ok (positive_int env "RUN_RETENTION_DAYS" "7") _ h in
      let (timeout, w, h) = bind-eq-ok (positive_int env "HTTP_TIMEOUT_SECONDS" "10") _ h in
      let (page, g, h) = bind-eq-ok (positive_int env "LIST_PAGE_SIZE" "500") _ h in
      let (port, o, h) = bind-eq-ok (positive_int env "HEALTH_PORT" "8080") _ h in
      let (level, l, h) = bind-eq-ok (log_level upper env) _ h in
      subst IsLoaded (ok_injective h) (record {
        valid_clusters = parse_clusters-AreValid loads raw clusters c;
        valid_dest = load_endpoint-IsEndpoint env dest d;
        has_version = read_version-size _ version v;
        polls = positive_int-size env _ _ poll p;
        retains = positive_int-size env _ _ retention t;
        waits = positive_int-size env _ _ timeout w;
        pages = positive_int-size env _ _ page g;
        serves = positive_int-size env _ _ port o;
        is_level = log_level-IsLevel upper env level l;
      })
