-- ===== src/Kubernetes/Request/Sent.antt =====
-- Which requests a listing sends, and with which credentials.
use Prim.Native.String
use argo_workflows_exporter.Base.{
  ℕ, suc, String, ◌≡◌, ◌≢◌, refl, sym, subst, Bool, true, false, not, Option, none, some, List, [],
  ◌∷◌,
}
use argo_workflows_exporter.Base.Text.{is_empty, strip}
use argo_workflows_exporter.Base.Results.{
  Result, ok, err, Error, os_error, require, bind-eq-ok, ok_injective,
}
use argo_workflows_exporter.Json.{Value}
use argo_workflows_exporter.Kubernetes.{HttpOutcome, fetch_json, list_items}
use argo_workflows_exporter.Kubernetes.Turns.{Pages, items_of, IsFetched}
use argo_workflows_exporter.Kubernetes.Listing.{IsChain, list_items-IsChain}
use argo_workflows_exporter.Kubernetes.Request.{
  Files, Request, is_filled, local_request, request_for, sent, request_to,
}

module _ (files : Files) (path : String) (limit : ℕ) (continue_token : Option String)
    (timeout : ℕ) where
  -- A request to the local server carries the token that its file holds now, which is not blank,
  -- and is checked against the CA bundle, which is not empty.
  pub record IsAuthorized (request : Request) : Type 0 where
    pub raw : String
    pub token_read : files.token ≡ ok raw
    pub not_blank : is_empty (strip raw) ≡ false
    pub start : List ℕ
    pub ca_read : files.ca_start ≡ ok start
    pub ca_filled : start ≢ []
    pub to_local : request.url ≡ String.◌++◌ "https://kubernetes.default.svc" path
    pub has_token : request.authorization ≡ some (String.◌++◌ "Bearer " (strip raw))
    pub trusts : request.verify ≡ some "/var/run/secrets/kubernetes.io/serviceaccount/ca.crt"

  -- one to a remote server carries no credential, and leaves the library its own bundle
  pub record IsAnonymous (base_url : String) (request : Request) : Type 0 where
    pub to_remote : request.url ≡ String.◌++◌ base_url path
    pub no_token : request.authorization ≡ none
    pub own_bundle : request.verify ≡ none

  abbrev IsFrom : Option String → Request → Type 0
  IsFrom none request = IsAuthorized request
  IsFrom (some base_url) request = IsAnonymous base_url request

  -- either one asks for the page after the token, and has the limit and the timeout
  abbrev pub IsProper : Option String → Request → Type 0
  IsProper base_url request =
      IsFrom base_url request
      × (request.limit ≡ limit)
      × (request.continue_token ≡ continue_token)
      × (request.timeout ≡ timeout)

  is_filled-nonempty : (start : List ℕ) → is_filled start ≡ true → start ≢ []
  is_filled-nonempty [] h e = absurd (cc h)
  is_filled-nonempty (x ∷ xs) h e = absurd (cc e)

  require-eq-ok : (b : Bool) (e : Error) (x : Unit {0}) → require b e ≡ ok x → b ≡ true
  require-eq-ok true e x h = refl
  require-eq-ok false e x h = absurd (cc h)

  not-true : (b : Bool) → not b ≡ true → b ≡ false
  not-true true h = sym h
  not-true false h = refl

  pub request_for-IsProper :
      (base_url : Option String) (request : Request)
      → request_for base_url files path limit continue_token timeout ≡ ok request
      → IsProper base_url request
  unfolding request_for local_request
  request_for-IsProper (some base_url) request h =
      subst (IsProper (some base_url)) (ok_injective h)
        (record { to_remote = refl; no_token = refl; own_bundle = refl }, refl, refl, refl)
  request_for-IsProper none request h =
      let (raw, t, f) = bind-eq-ok files.token _ h in
      let (u, nonblank, g) = bind-eq-ok (require (not (is_empty (strip raw))) os_error) _ f in
      let (start, c, k) = bind-eq-ok files.ca_start _ g in
      let (v, filled, l) = bind-eq-ok (require (is_filled start) os_error) _ k in
      subst (IsProper none) (ok_injective l) (
        record {
          raw = raw;
          token_read = t;
          not_blank = not-true _ (require-eq-ok _ _ u nonblank);
          start = start;
          ca_read = c;
          ca_filled = is_filled-nonempty start (require-eq-ok _ _ v filled);
          to_local = refl;
          has_token = refl;
          trusts = refl;
        },
        refl,
        refl,
        refl,
      )

sent-IsFetched :
    (send : Request → HttpOutcome) (made : Result Request) (xs : List Value) (t : String)
    → IsFetched (fetch_json (sent send made)) xs t
    → (request : Request) × (made ≡ ok request) × IsFetched (fetch_json (send request)) xs t
unfolding fetch_json
sent-IsFetched send (ok request) xs t f = (request, refl, f)
sent-IsFetched send (err os_error) xs t (page, e, f) = absurd (cc e)
sent-IsFetched send (err _) xs t (page, e, f) = absurd (cc e)

module _ (base_url : Option String) (files : ℕ → Files) (send : ℕ → Request → HttpOutcome)
    (path : String) (limit timeout : ℕ) where
  -- From request `i` on each page is what the server answers to a proper request.
  abbrev pub IsServed : ℕ → Option String → Pages → Type 0
  IsServed i token [] = Unit
  IsServed i token ((xs, t) ∷ ps) =
      ((request : Request) × IsProper (files i) path limit token timeout base_url request
        × IsFetched (fetch_json (send i request)) xs t)
      × IsServed (suc i) (some t) ps

  abbrev request : ℕ → Option String → HttpOutcome
  request = request_to base_url files send path limit timeout

  served_page :
      (i : ℕ) (token : Option String) (xs : List Value) (t : String)
      → IsFetched (fetch_json (request i token)) xs t
      → (r : Request) × IsProper (files i) path limit token timeout base_url r
        × IsFetched (fetch_json (send i r)) xs t
  served_page i token xs t f =
      let (r, e, g) =
        sent-IsFetched (send i) (request_for base_url (files i) path limit token timeout) xs t f in
      (r, request_for-IsProper (files i) path limit token timeout base_url r e, g)

  IsChain-IsServed :
      (i : ℕ) (token : Option String) (seen : List String) (ps : Pages)
      → IsChain request i token seen ps
      → IsServed i token ps
  IsChain-IsServed i token seen [] c = tt
  IsChain-IsServed i token seen ((xs, t) ∷ []) c = (served_page i token xs t c.0, tt)
  IsChain-IsServed i token seen ((xs, t) ∷ (p ∷ ps)) c =
      (served_page i token xs t c.0, IsChain-IsServed (suc i) (some t) (t ∷ seen) (p ∷ ps) c.3)

  -- A listing that is returned as complete is made of pages that the server answered to proper
  -- requests, each with the token of the page before, the limit and the timeout. Each one to the
  -- local server went to its address, carried as a bearer the token that its file held at that
  -- moment, which was not blank, and named the CA bundle, which was not empty; each one to a remote
  -- server went to its address, carried no credential and named no bundle.
  pub list_items-IsServed :
      (fuel : ℕ) (all : List Value)
      → list_items (request_to base_url files send path limit timeout) fuel ≡ some (ok (all, true))
      → (ps : Pages) × IsServed 0 none ps × (all ≡ items_of ps)
  list_items-IsServed fuel all h =
      let (ps, c, l, e) = (list_items-IsChain request fuel all).0 h in
      (ps, IsChain-IsServed 0 none [] ps c, e)
