-- ===== src/Backend/Tidy.antt =====
-- The applications in the cache of a backend, as requests for them are answered.
use mathlib.Core.Path.{subst}
use scale_authorizer.Prelude.{
  String, Bool, true, false, some, ◌≡◌, refl, arith, ◌∙◌, ap, inl, inr, List-cases, Option-cases,
  Bool-cases, sym, some_inj, ◌==◌,
}
use scale_authorizer.Prelude.Map.{IsMap}
use scale_authorizer.Prelude.Outcome.{ok, Outcome-cases}
use scale_authorizer.Api.{ApiLib, Request, AuthorizeResult, Reply, Metrics}
use scale_authorizer.Application.{
  Application, or_empty, ordered, get_application_from_response, annotate_with_request_details,
}
use scale_authorizer.Counters.{report_metrics}
use scale_authorizer.Counters.Reported.{IsTidy}
use scale_authorizer.Counters.Tidy.{report_metrics-IsTidy, response-IsTidy, annotate-IsTidy}
use scale_authorizer.Host.{Client, IsConcurrentMap}
use scale_authorizer.LocalCache
use scale_authorizer.Backend.{
  Host, Backend, get_application_from_cache, call_back, remote_auth, set_in_cache,
  get_empty_auth_request, empty_transaction_from,
}
use scale_authorizer.Backend.Miss.{
  Miss, Fetched, cache_response, handle_cache_miss, apply_policy,
  handle_authorization_network_error, after_miss, fetch_application,
}
use scale_authorizer.Backend.Authorize.{local_report}
use scale_authorizer.Backend.Decisions.{cache-call_back}

-- The states that 3scale answers with list every metric once, and so do they when they are sorted.
pub record IsListing {W : Type 0} (lib : ApiLib) (client : Client W) : Type 0 where
  pub listed :
      (r : Request) (w : W) (resp : AuthorizeResult)
      → (client.authorize r w).0.result ≡ some resp
      → IsMap (or_empty (ordered lib resp.usage_reports))
  pub listed_oauth :
      (r : Request) (w : W) (resp : AuthorizeResult)
      → (client.oauth_authorize r w).0.result ≡ some resp
      → IsMap (or_empty (ordered lib resp.usage_reports))

module _ {W S Q H : Type 0} (h : Host W S Q H) (laws : IsConcurrentMap h.cmap) (client : Client W)
    (listing : IsListing h.lib client) where
  open h use {cmap, lib}

  abbrev pub CacheIsTidy : Backend W S Q → Type 0
  CacheIsTidy b =
      (b.client ≡ client)
      × ((k : String) (a : Application) → cmap.get b.cache k ≡ some a → IsTidy a)

  set-CacheIsTidy :
      (b : Backend W S Q) (k : String) (a : Application)
      → CacheIsTidy b
      → IsTidy a
      → CacheIsTidy (set_in_cache h b k a)
  unfolding set_in_cache LocalCache.set
  set-CacheIsTidy b k a (c, all) tidy = (
    c,
    λ j x e. elim (Bool-cases (k == j)) [
      | inl p ↦
          let here : cmap.get (cmap.set b.cache k a) j ≡ some a =
            laws.get-set b.cache k j a ∙ rw p refl in
          subst IsTidy (some_inj a x (sym here ∙ e)) tidy
      | inr p ↦
          let there : cmap.get (cmap.set b.cache k a) j ≡ cmap.get b.cache j =
            laws.get-set b.cache k j a ∙ rw p refl in
          all j x (sym there ∙ e)
    ],
  )

  -- A backend whose client and cache have not changed.
  pub moved-CacheIsTidy :
      (b b' : Backend W S Q)
      → (b'.client ≡ b.client) × (b'.cache ≡ b.cache)
      → CacheIsTidy b
      → CacheIsTidy b'
  moved-CacheIsTidy b b' (c, s) (same, all) =
      (c ∙ same, λ k a e. all k a (ap (λ t. cmap.get t k) (sym s) ∙ e))

  -- The answer lists every metric once.
  abbrev pub ListsOnce : Reply AuthorizeResult → Type 0
  ListsOnce reply =
      (resp : AuthorizeResult)
      → reply.result ≡ some resp
      → IsMap (or_empty (ordered lib resp.usage_reports))

  pub cache_response-CacheIsTidy :
      (b b' : Backend W S Q) (request : Request) (key : String) (reply : Reply AuthorizeResult)
      (miss : Miss)
      → ListsOnce reply
      → CacheIsTidy b
      → cache_response h b request key reply ≡ ok (miss, b')
      → CacheIsTidy b'
  unfolding cache_response
  cache_response-CacheIsTidy b b' request key reply miss each tidy e =
      elim (Option-cases reply.error) [
        | inr (x, p) ↦ moved-CacheIsTidy b b' (ground arith) tidy
        | inl p ↦ elim (Option-cases reply.result) [
          | inl q ↦ absurd (ground arith)
          | inr (resp, q) ↦ elim (Bool-cases resp.authorized) [
            | inr r ↦ moved-CacheIsTidy b b' (ground arith) tidy
            | inl r ↦ elim (Outcome-cases (get_application_from_response lib resp)) [
              | inl s ↦ absurd (ground arith)
              | inr (app, s) ↦
                  let a = annotate_with_request_details lib app request in
                  moved-CacheIsTidy (set_in_cache h b key a) b' (ground arith) (
                    set-CacheIsTidy b key a tidy (
                      annotate-IsTidy lib app request
                        (response-IsTidy lib resp app (each resp q) s)))
            ]
          ]
        ]
      ]

  pub remote_auth-listed :
      (b : Backend W S Q) (request : Request) (oidc : Bool) (resp : AuthorizeResult)
      → b.client ≡ client
      → (remote_auth h b request oidc).0.result ≡ some resp
      → IsMap (or_empty (ordered lib resp.usage_reports))
  unfolding remote_auth
  remote_auth-listed b request true resp same e =
      listing.listed_oauth request b.world resp
        (ap (λ c. (c.oauth_authorize request b.world).0.result) (sym same) ∙ e)
  remote_auth-listed b request false resp same e =
      listing.listed request b.world resp
        (ap (λ c. (c.authorize request b.world).0.result) (sym same) ∙ e)

  pub remote_auth-CacheIsTidy :
      (b : Backend W S Q) (request : Request) (oidc : Bool)
      → CacheIsTidy b
      → CacheIsTidy (remote_auth h b request oidc).1
  unfolding remote_auth
  remote_auth-CacheIsTidy b request oidc =
      moved-CacheIsTidy b (remote_auth h b request oidc).1 (refl, refl)

  handle_cache_miss-CacheIsTidy :
      (b b' : Backend W S Q) (request : Request) (key : String) (oidc : Bool) (miss : Miss)
      → CacheIsTidy b
      → handle_cache_miss h b request key oidc ≡ ok (miss, b')
      → CacheIsTidy b'
  unfolding handle_cache_miss
  handle_cache_miss-CacheIsTidy b b' request key oidc miss tidy e =
      elim (List-cases request.transactions) [
        | inl p ↦ absurd (ground arith)
        | inr (t, rest, p) ↦
            let blank =
              get_empty_auth_request lib request.service request.auth
                (empty_transaction_from t).params in
            let asked = remote_auth h b blank oidc in
            cache_response-CacheIsTidy asked.1 b' request key asked.0 miss
              (λ resp q. remote_auth-listed b blank oidc resp tidy.0 q)
              (remote_auth-CacheIsTidy b blank oidc tidy) (ground arith)
      ]

  pub after_miss-CacheIsTidy :
      (b b' : Backend W S Q) (miss : Miss) (fetched : Fetched)
      → CacheIsTidy b
      → after_miss h miss b ≡ ok (fetched, b')
      → CacheIsTidy b'
  unfolding after_miss handle_authorization_network_error apply_policy
  after_miss-CacheIsTidy b b' miss fetched tidy e =
      moved-CacheIsTidy b b' (ground arith, ground arith) tidy

  pub fetch_application-CacheIsTidy :
      (b b' : Backend W S Q) (request : Request) (key : String) (oidc : Bool) (fetched : Fetched)
      → CacheIsTidy b
      → fetch_application h b request key oidc ≡ ok (fetched, b')
      → CacheIsTidy b'
  unfolding fetch_application get_application_from_cache LocalCache.get call_back
  fetch_application-CacheIsTidy b b' request key oidc fetched tidy e =
      elim (Option-cases (cmap.get b.cache key)) [
        | inr (app, p) ↦ moved-CacheIsTidy b b' (ground arith, ground arith) tidy
        | inl p ↦ elim (Outcome-cases (handle_cache_miss h b request key oidc)) [
          | inl q ↦ absurd (ground arith)
          | inr (r, q) ↦
              after_miss-CacheIsTidy r.1 b' r.0 fetched
                (handle_cache_miss-CacheIsTidy b r.1 request key oidc r.0 tidy q) (ground arith)
        ]
      ]

  pub local_report-CacheIsTidy :
      (b : Backend W S Q) (key : String) (m : Metrics)
      → CacheIsTidy b
      → CacheIsTidy (local_report h b key m)
  unfolding local_report get_application_from_cache LocalCache.get call_back
  local_report-CacheIsTidy b key m tidy = elim (Option-cases (cmap.get b.cache key)) [
    | inl p ↦ moved-CacheIsTidy b (local_report h b key m) (ground arith, ground arith) tidy
    | inr (app, p) ↦
        moved-CacheIsTidy (set_in_cache h (call_back h b) key (report_metrics app m))
          (local_report h b key m) (ground arith, ground arith)
          (set-CacheIsTidy (call_back h b) key (report_metrics app m)
            (moved-CacheIsTidy b (call_back h b) (ground arith, cache-call_back h b) tidy)
            (report_metrics-IsTidy app m (tidy.1 key app p)))
  ]
