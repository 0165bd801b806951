-- ===== src/Examples/Requests.antt =====
-- The theorems on the credentials of a listing, on a server with two pages whose token is replaced
-- between them, and on a token that is not UTF-8.
use argo_workflows_exporter.Base.{
  ℕ, zero, suc, String, ◌≡◌, ◌≢◌, refl, inl, inr, true, none, some, List, [], ◌∷◌,
}
use argo_workflows_exporter.Base.Results.{ok, err, decode_error}
use argo_workflows_exporter.Base.Text.{strip, is_blank}
use argo_workflows_exporter.Json.{
  get, contains, items, entries, Value, obj, arr, text, field, end, of_items,
}
use argo_workflows_exporter.Kubernetes.{
  HttpOutcome, response, fetch_json, read_page, turn, turn_of_page, turn_on, list_pages, list_items,
}
use argo_workflows_exporter.Kubernetes.Turns.{Pages, items_of}
use argo_workflows_exporter.Kubernetes.Request.{
  Files, Request, request_to, request_for, local_request,
}
use argo_workflows_exporter.Kubernetes.Request.Sent.{IsServed, list_items-IsServed}
use argo_workflows_exporter.Workflows.Collect.{fetch_workflows}
use argo_workflows_exporter.Workflows.Collect.Aborted.{fetch_workflows-aborts}
use argo_workflows_exporter.Examples.Data.{new_time}
use argo_workflows_exporter.Examples.Rows.{tools, east, west}

abbrev rotated : ℕ → Files
rotated zero = record { token = ok "first\n"; ca_start = ok (0x2d ∷ []) }
rotated (suc i) = record { token = ok "second\n"; ca_start = ok (0x2d ∷ []) }

abbrev page : String → Value → Value
page name metadata =
    obj (field "items" (arr (of_items (text name ∷ []))) (field "metadata" metadata end))

abbrev answers : ℕ → Request → HttpOutcome
answers zero request = response 200 (some (page "a" (obj (field "continue" (text "t1") end))))
answers (suc i) request = response 200 (some (page "b" (obj end)))

abbrev two_items : List Value
two_items = text "a" ∷ text "b" ∷ []

is_listed :
    list_items (request_to none rotated answers "/apis" 500 30) 3 ≡ some (ok (two_items, true))
unfolding list_items list_pages turn turn_of_page turn_on read_page fetch_json request_for
    local_request get contains items of_items entries is_blank strip
is_listed = refl

list_items-IsServed_example :
    (ps : Pages) × IsServed none rotated answers "/apis" 500 30 0 none ps
    × (two_items ≡ items_of ps)
list_items-IsServed_example =
    list_items-IsServed none rotated answers "/apis" 500 30 3 two_items is_listed

abbrev not_text : Files
not_text = record { token = err decode_error; ca_start = ok (0x2d ∷ []) }

fetch_workflows-aborts_example :
    fetch_workflows tools
      (λ k path. request_to k.base_url (λ i. not_text) answers path 500 30)
      3
      ""
      new_time
      (west ∷ east ∷ [])
    ≢ some (ok ([], []))
fetch_workflows-aborts_example =
    fetch_workflows-aborts tools (λ k i. not_text) (λ k. answers) 500 30 3 "" new_time east
      (west ∷ east ∷ []) ([], []) refl refl (inr (inl refl))
