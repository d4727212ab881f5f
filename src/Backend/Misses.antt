-- ===== src/Backend/Misses.antt =====
-- `authRep` on a request whose application is not cached.
use Prim.Native.String.{◌++◌}
use scale_authorizer.Prelude.{
  String, Bool, true, false, none, some, List, ◌∷◌, ◌≡◌, ◌↔◌, refl, arith, ◌==◌, ◌||◌,
  if◌then◌else◌, eq_refl, Option-cases, Bool-cases, ◌⊎◌, inl, inr, ◌∙◌,
}
use scale_authorizer.Prelude.Outcome.{ok, ◌>>=◌}
use scale_authorizer.Api.{
  Transaction, Request, AuthorizeResult, Error, NetError, Reply, Fallible, success, failure,
}
use scale_authorizer.Application.{
  Application, get_application_from_response, annotate_with_request_details,
}
use scale_authorizer.Counters.{is_authorized, report_metrics}
use scale_authorizer.Host.{IsConcurrentMap}
use scale_authorizer.LocalCache
use scale_authorizer.Backend.{
  Host, Backend, empty_transaction_from, get_application_from_cache, remote_auth, set_in_cache,
}
use scale_authorizer.Backend.Miss.{
  found, answered, verdict, cache_response, handle_cache_miss, apply_policy,
  handle_authorization_network_error, after_miss, fetch_application,
}
use scale_authorizer.Backend.Authorize.{decide_and_report, auth_rep}
use scale_authorizer.Backend.Decisions.{
  key_of, blank, affected, auth_rep_fetched, decide_and_report_found, settled, cache-local_report,
}

module _ {W S Q H : Type 0} (h : Host W S Q H) where
  open h use {cmap, lib}

  -- What has to be the case for the policy to let a request pass.
  abbrev pub Allows : Backend W S Q → Error → Type 0
  Allows b e =
      (net : NetError) × (policy : (W → Bool × W)) × (e.network ≡ some net)
      × ((net.temporary || net.timeout) ≡ true)
      × (b.policy ≡ some policy)
      × ((policy b.world).0 ≡ true)

  apply_policy_sound : (b : Backend W S Q) (e : Error) → (apply_policy h b e).0 ≡ true → Allows b e
  unfolding apply_policy
  apply_policy_sound b e p = elim (Option-cases e.network) [
    | inl n ↦ absurd (ground arith)
    | inr (net, n) ↦ elim (Option-cases b.policy) [
      | inl q ↦ absurd (ground arith)
      | inr (policy, q) ↦ (net, policy, n, ground arith, q, ground arith)
    ]
  ]

  apply_policy_complete :
      (b : Backend W S Q) (e : Error) → Allows b e → (apply_policy h b e).0 ≡ true
  unfolding apply_policy
  apply_policy_complete b e (net, policy, n, t, q, r) = ground arith

  -- The policy lets a request pass exactly when the error is a network error, temporary or a
  -- timeout, and there is a policy, which says so.
  pub apply_policy_iff :
      (b : Backend W S Q) (e : Error) → ((apply_policy h b e).0 ≡ true) ↔ Allows b e
  apply_policy_iff b e = (apply_policy_sound b e, apply_policy_complete b e)

  cache-policy : (b : Backend W S Q) (e : Error) → (apply_policy h b e).1.cache ≡ b.cache
  unfolding apply_policy
  cache-policy b e = ground arith

  module _ (b : Backend W S Q) (request : Request) (t : Transaction) (rest : List Transaction)
      (first : request.transactions ≡ t ∷ rest) (oidc : Bool)
      (missing : cmap.get b.cache (key_of h request t) ≡ none) where
    -- The answer of 3scale to the blank request, and the backend after it.
    abbrev pub reply : Reply AuthorizeResult
    reply = (remote_auth h b (blank h request t) oidc).0

    abbrev pub asked : Backend W S Q
    asked = (remote_auth h b (blank h request t) oidc).1

    cache-asked : asked.cache ≡ b.cache
    unfolding remote_auth
    cache-asked = refl

    fetch_miss :
        fetch_application h b request (key_of h request t) oidc
        ≡ (cache_response h asked request (key_of h request t) reply >>= λ r. after_miss h r.0 r.1)
    unfolding fetch_application get_application_from_cache handle_cache_miss LocalCache.get
        empty_transaction_from
    fetch_miss = ground arith

    fetch_error :
        (e : Error)
        → reply.error ≡ some e
        → fetch_application h b request (key_of h request t) oidc
          ≡ ok (
            answered (handle_authorization_network_error h asked e).0,
            (handle_authorization_network_error h asked e).1,
          )
    unfolding cache_response after_miss
    fetch_error e p = ground (arith, fetch_miss)

    fetch_denied :
        (resp : AuthorizeResult)
        → reply.error ≡ none
        → reply.result ≡ some resp
        → resp.authorized ≡ false
        → fetch_application h b request (key_of h request t) oidc
          ≡ ok (answered (success resp), asked)
    unfolding cache_response after_miss
    fetch_denied resp p q r = ground (arith, fetch_miss)

    -- The application that a positive answer yields.
    abbrev pub learned : Application → Application
    learned app = annotate_with_request_details lib app request

    fetch_learned :
        (resp : AuthorizeResult) (app : Application)
        → reply.error ≡ none
        → reply.result ≡ some resp
        → resp.authorized ≡ true
        → get_application_from_response lib resp ≡ ok app
        → fetch_application h b request (key_of h request t) oidc
          ≡ ok (found (learned app), set_in_cache h asked (key_of h request t) (learned app))
    unfolding cache_response after_miss
    fetch_learned resp app p q r a = ground (arith, fetch_miss)

    -- If the application is not cached and 3scale cannot be asked, the answer is a plain
    -- authorization if the cause is a temporary or timed out network error and there is a policy that
    -- says so, and otherwise an error with the message of the cause. The cache is as before.
    pub auth_rep_error :
        (e : Error)
        → reply.error ≡ some e
        → (answer : Fallible AuthorizeResult) × (b' : Backend W S Q) × (auth_rep h b request oidc
            ≡ ok (answer, b'))
          × ((Allows asked e × (answer ≡ success (verdict true)))
              ⊎ ((¬ Allows asked e)
                  × (answer
                      ≡ failure (record {
                        message = "unable to process request - " ++ e.message;
                        network = none;
                      }))))
          × (b'.cache ≡ b.cache)
    unfolding handle_authorization_network_error decide_and_report
    auth_rep_error e p =
        let run =
          auth_rep_fetched h b request t rest first oidc
            (answered (handle_authorization_network_error h asked e).0)
            (handle_authorization_network_error h asked e).1 (fetch_error e p) in
        (
          (handle_authorization_network_error h asked e).0,
          (apply_policy h asked e).1,
          run ∙ ground arith,
          elim (Bool-cases (apply_policy h asked e).0) [
            | inl allowed ↦ inl ((apply_policy_iff asked e).0 allowed, ground arith)
            | inr refused ↦ inr (
              λ allows. absurd (ground (arith, (apply_policy_iff asked e).1 allows)),
              ground arith,
            )
          ],
          cache-policy asked e ∙ cache-asked,
        )

    -- If the application is not cached and 3scale denies the blank request, its answer is passed on
    -- unchanged, and the cache is as before.
    pub auth_rep_denied :
        (resp : AuthorizeResult)
        → reply.error ≡ none
        → reply.result ≡ some resp
        → resp.authorized ≡ false
        → (auth_rep h b request oidc ≡ ok (success resp, asked)) × (asked.cache ≡ b.cache)
    unfolding decide_and_report
    auth_rep_denied resp p q r = (
      auth_rep_fetched h b request t rest first oidc (answered (success resp)) asked
          (fetch_denied resp p q r),
      cache-asked,
    )

    -- The backend after a request whose application was learned.
    abbrev pub after_learning : Application → Backend W S Q
    after_learning app =
        settled h (set_in_cache h asked (key_of h request t) app) request t rest first
          (key_of h request t) app

    -- If the application is not cached and 3scale knows it, the request is decided by the limits that
    -- 3scale has just sent. Whatever the verdict, the application is cached from now on, with the
    -- increments if they were authorized, and no other entry changes.
    pub auth_rep_miss :
        (resp : AuthorizeResult) (app : Application)
        → IsConcurrentMap cmap
        → reply.error ≡ none
        → reply.result ≡ some resp
        → resp.authorized ≡ true
        → get_application_from_response lib resp ≡ ok app
        → (auth_rep h b request oidc
            ≡ ok (
              success (verdict (is_authorized (learned app) (affected h (learned app) t))),
              after_learning (learned app),
            ))
          × ((j : String)
              → cmap.get (after_learning (learned app)).cache j ≡ (
                  if key_of h request t == j
                  then some (
                      if is_authorized (learned app) (affected h (learned app) t)
                      then report_metrics (learned app) (affected h (learned app) t)
                      else learned app)
                  else cmap.get b.cache j))
    unfolding set_in_cache LocalCache.set
    auth_rep_miss resp app laws p q r a =
        let key = key_of h request t in
        let c = set_in_cache h asked key (learned app) in
        (
          auth_rep_fetched h b request t rest first oidc (found (learned app)) c
                (fetch_learned resp app p q r a)
              ∙ decide_and_report_found h c request t rest first key (learned app),
          λ j. ground (
            arith,
            laws.get-set asked.cache key j (learned app),
            cache-asked,
            cache-local_report h c key (affected h (learned app) t) (learned app) laws
                (laws.get-set asked.cache key key (learned app) ∙ rw eq_refl) j,
          ),
        )
