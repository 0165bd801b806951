-- ===== src/Kubernetes/Request.antt =====
-- `_local_request` of src/k8s_api.py, and the request of `fetch_json`. `files i` is what the files of
-- the ServiceAccount hold when request `i` is made, and `send i` what the HTTP library makes of it.
pub mod Sent
use Prim.Native.String
use argo_workflows_exporter.Base.{
  ℕ, String, Bool, true, false, not, Option, none, some, List, [], ◌∷◌,
}
use argo_workflows_exporter.Base.Text.{is_empty, strip}
use argo_workflows_exporter.Base.Results.{Result, ok, err, Error, os_error, ◌>>=◌, require}
use argo_workflows_exporter.Kubernetes.{HttpOutcome, unreachable, raises}

-- What opening and reading the two files comes to: the decoded token, and the first byte of the CA
-- bundle, if there is one. A token that is not UTF-8 raises `UnicodeDecodeError`.
pub record Files : Type 0 where
  pub token : Result String
  pub ca_start : Result (List ℕ)

-- the arguments of `requests.get`; without `verify` the library trusts its own bundle
pub record Request : Type 0 where
  pub url : String
  pub limit : ℕ
  pub continue_token : Option String
  pub authorization : Option String
  pub verify : Option String
  pub timeout : ℕ

-- `_SA_CA_PATH`
abbrev pub sa_ca_path : String
sa_ca_path = "/var/run/secrets/kubernetes.io/serviceaccount/ca.crt"

-- `_LOCAL_API_SERVER`
abbrev pub local_api_server : String
local_api_server = "https://kubernetes.default.svc"

abbrev pub is_filled : List ℕ → Bool
is_filled [] = false
is_filled (byte ∷ bytes) = true

abbrev pub authorized : String → ℕ → Option String → ℕ → String → Request
authorized path limit continue_token timeout token = record {
  url = String.◌++◌ local_api_server path;
  limit = limit;
  continue_token = continue_token;
  authorization = some (String.◌++◌ "Bearer " token);
  verify = some sa_ca_path;
  timeout = timeout;
}

abbrev pub anonymous : String → String → ℕ → Option String → ℕ → Request
anonymous base_url path limit continue_token timeout = record {
  url = String.◌++◌ base_url path;
  limit = limit;
  continue_token = continue_token;
  authorization = none;
  verify = none;
  timeout = timeout;
}

-- `_local_request`, up to its call of `requests.get`
unfoldable pub local_request : Files → String → ℕ → Option String → ℕ → Result Request
local_request files path limit continue_token timeout = do
  raw ← files.token
  let token = strip raw
  has_token ← require (not (is_empty token)) os_error
  start ← files.ca_start
  has_ca ← require (is_filled start) os_error
  ok (authorized path limit continue_token timeout token)

-- the two branches of `fetch_json`
unfoldable pub request_for : Option String → Files → String → ℕ → Option String → ℕ → Result Request
request_for none files path limit continue_token timeout =
    local_request files path limit continue_token timeout
request_for (some base_url) files path limit continue_token timeout =
    ok (anonymous base_url path limit continue_token timeout)

-- `except (requests.RequestException, OSError)`, for what is raised before the request is sent
abbrev pub refused : Error → HttpOutcome
refused os_error = unreachable
refused e = raises e

abbrev pub sent : (Request → HttpOutcome) → Result Request → HttpOutcome
sent send (err e) = refused e
sent send (ok request) = send request

-- What the requests of a listing come to: `list_items` calls `fetch_json` with these parameters.
abbrev pub request_to :
    Option String
    → (ℕ → Files)
    → (ℕ → Request → HttpOutcome)
    → String
    → ℕ
    → ℕ
    → ℕ
    → Option String
    → HttpOutcome
request_to base_url files send path limit timeout i token =
    sent (send i) (request_for base_url (files i) path limit token timeout)
