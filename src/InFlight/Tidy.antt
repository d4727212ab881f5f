-- ===== src/InFlight/Tidy.antt =====
-- The applications in the cache of a backend, whatever requests run over it.
use mathlib.Core.Path.{subst}
use scale_authorizer.Prelude.{
  String, ℕ, Bool, true, List, [], ◌∷◌, ◌≡◌, arith, inl, inr, Option-cases, List-cases, get_elem?,
}
use scale_authorizer.Prelude.Outcome.{ok, Outcome-cases}
use scale_authorizer.Api.{Request, Reply, AuthorizeResult, success, failure}
use scale_authorizer.Host.{Client, IsConcurrentMap}
use scale_authorizer.Key.{generate_cache_key_from_request}
use scale_authorizer.LocalCache
use scale_authorizer.Backend.{
  Host, Backend, validate_transactions, compute_affected_metrics, empty_transaction_from,
  get_empty_auth_request, get_application_from_cache, remote_auth, call_back,
}
use scale_authorizer.Backend.Miss.{Fetched, found, answered, verdict, cache_response, after_miss}
use scale_authorizer.Backend.Authorize.{local_report}
use scale_authorizer.Backend.Decisions.{cache-call_back}
use scale_authorizer.InFlight.{
  Stage, started, missed, replied, approved, finished, check, advance, System, set, step, run,
}
use scale_authorizer.InFlight.Counting.{AllAt, set-AllAt}
use scale_authorizer.Backend.Tidy.{
  IsListing, CacheIsTidy, ListsOnce, moved-CacheIsTidy, remote_auth-listed, remote_auth-CacheIsTidy,
  cache_response-CacheIsTidy, after_miss-CacheIsTidy, local_report-CacheIsTidy,
}

module _ {W S Q H : Type 0} (h : Host W S Q H) (laws : IsConcurrentMap h.cmap) (client : Client W)
    (listing : IsListing h.lib client) where
  open h use {cmap, lib}

  check-backend :
      (b b' : Backend W S Q) (request : Request) (key : String) (fetched : Fetched) (stage : Stage)
      → check h b request key fetched ≡ ok (stage, b')
      → (b'.client ≡ b.client) × (b'.cache ≡ b.cache)
  unfolding check
  check-backend b b' request key (answered answer) stage e = (ground arith, ground arith)
  check-backend b b' request key (found app) stage e =
      elim (Outcome-cases (compute_affected_metrics lib app request)) [
        | inl p ↦ absurd (ground arith)
        | inr (m, p) ↦ (ground arith, ground arith)
      ]

  -- An answer of 3scale that has still to be entered in the cache lists every metric once.
  unfoldable pub IsListed : Stage → Type 0
  IsListed (started request) = Unit
  IsListed (missed request key) = Unit
  IsListed (replied request key reply) = ListsOnce h laws client listing reply
  IsListed (approved key m) = Unit
  IsListed (finished answer) = Unit

  IsListed-same : (x y : Stage) → x ≡ y → IsListed x → IsListed y
  IsListed-same x y = subst IsListed

  -- The cache is tidy, and whatever a thread is about to enter in it.
  abbrev pub SystemIsTidy : System W S Q → Type 0
  SystemIsTidy s = CacheIsTidy h laws client listing s.backend × AllAt (λ i. IsListed) s.threads

  SystemIsTidy-same : (s s' : System W S Q) → s ≡ s' → SystemIsTidy s → SystemIsTidy s'
  SystemIsTidy-same s s' = subst SystemIsTidy

  check-IsListed :
      (b b' : Backend W S Q) (request : Request) (key : String) (fetched : Fetched) (stage : Stage)
      → check h b request key fetched ≡ ok (stage, b')
      → IsListed stage
  unfolding check IsListed
  check-IsListed b b' request key (answered answer) (started r) e = tt
  check-IsListed b b' request key (answered answer) (missed r k) e = tt
  check-IsListed b b' request key (answered answer) (replied r k reply) e = absurd (ground arith)
  check-IsListed b b' request key (answered answer) (approved k m) e = tt
  check-IsListed b b' request key (answered answer) (finished x) e = tt
  check-IsListed b b' request key (found app) (started r) e = tt
  check-IsListed b b' request key (found app) (missed r k) e = tt
  check-IsListed b b' request key (found app) (replied r k reply) e =
      elim (Outcome-cases (compute_affected_metrics lib app request)) [
        | inl p ↦ absurd (ground arith)
        | inr (m, p) ↦ absurd (ground arith)
      ]
  check-IsListed b b' request key (found app) (approved k m) e = tt
  check-IsListed b b' request key (found app) (finished x) e = tt

  advance-started :
      (b b' : Backend W S Q) (oidc : Bool) (request : Request) (stage' : Stage)
      → CacheIsTidy h laws client listing b
      → advance h b oidc (started request) ≡ ok (stage', b')
      → CacheIsTidy h laws client listing b' × IsListed stage'
  unfolding advance get_application_from_cache LocalCache.get IsListed
  advance-started b b' oidc request stage' tidy e =
      elim (Option-cases (validate_transactions request.transactions)) [
        | inr (x, p) ↦ (
          moved-CacheIsTidy h laws client listing b b' (ground arith, ground arith) tidy,
          IsListed-same (finished (failure x)) stage' (ground arith) tt,
        )
        | inl p ↦ elim (Outcome-cases (generate_cache_key_from_request lib request 0)) [
          | inl q ↦ absurd (ground arith)
          | inr (key, q) ↦ elim (Option-cases (cmap.get b.cache key)) [
            | inl r ↦ (
              moved-CacheIsTidy h laws client listing b b' (ground arith, ground arith) tidy,
              IsListed-same (missed request key) stage' (ground arith) tt,
            )
            | inr (app, r) ↦
                let b1 = call_back h b in
                let checks : check h b1 request key (found app) ≡ ok (stage', b') = ground arith in
                (
                  moved-CacheIsTidy h laws client listing b1 b'
                      (check-backend b1 b' request key (found app) stage' checks)
                      (moved-CacheIsTidy h laws client listing b b1
                        (ground arith, cache-call_back h b) tidy),
                  check-IsListed b1 b' request key (found app) stage' checks,
                )
          ]
        ]
      ]

  advance-missed :
      (b b' : Backend W S Q) (oidc : Bool) (request : Request) (key : String) (stage' : Stage)
      → CacheIsTidy h laws client listing b
      → advance h b oidc (missed request key) ≡ ok (stage', b')
      → CacheIsTidy h laws client listing b' × IsListed stage'
  unfolding advance IsListed
  advance-missed b b' oidc request key stage' tidy e = elim (List-cases request.transactions) [
    | inl p ↦ absurd (ground arith)
    | inr (t, rest, p) ↦
        let blank =
          get_empty_auth_request lib request.service request.auth
            (empty_transaction_from t).params in
        let asked = remote_auth h b blank oidc in
        (
          moved-CacheIsTidy h laws client listing asked.1 b' (ground arith, ground arith)
              (remote_auth-CacheIsTidy h laws client listing b blank oidc tidy),
          IsListed-same (replied request key asked.0) stage' (ground arith)
              (λ resp q. remote_auth-listed h laws client listing b blank oidc resp tidy.0 q),
        )
  ]

  advance-replied :
      (b b' : Backend W S Q) (oidc : Bool) (request : Request) (key : String)
      (reply : Reply AuthorizeResult) (stage' : Stage)
      → CacheIsTidy h laws client listing b
      → ListsOnce h laws client listing reply
      → advance h b oidc (replied request key reply) ≡ ok (stage', b')
      → CacheIsTidy h laws client listing b' × IsListed stage'
  unfolding advance
  advance-replied b b' oidc request key reply stage' tidy once e =
      elim (Outcome-cases (cache_response h b request key reply)) [
        | inl p ↦ absurd (ground arith)
        | inr (m, p) ↦ elim (Outcome-cases (after_miss h m.0 m.1)) [
          | inl q ↦ absurd (ground arith)
          | inr (f, q) ↦
              let checks : check h f.1 request key f.0 ≡ ok (stage', b') = ground arith in
              (
                moved-CacheIsTidy h laws client listing f.1 b'
                    (check-backend f.1 b' request key f.0 stage' checks)
                    (after_miss-CacheIsTidy h laws client listing m.1 f.1 m.0 f.0
                      (cache_response-CacheIsTidy h laws client listing b m.1 request key reply m.0
                        once tidy p)
                      q),
                check-IsListed f.1 b' request key f.0 stage' checks,
              )
        ]
      ]

  advance-CacheIsTidy :
      (b b' : Backend W S Q) (oidc : Bool) (stage stage' : Stage)
      → CacheIsTidy h laws client listing b
      → IsListed stage
      → advance h b oidc stage ≡ ok (stage', b')
      → CacheIsTidy h laws client listing b' × IsListed stage'
  unfolding advance IsListed
  advance-CacheIsTidy b b' oidc (started request) stage' tidy l e =
      advance-started b b' oidc request stage' tidy e
  advance-CacheIsTidy b b' oidc (missed request key) stage' tidy l e =
      advance-missed b b' oidc request key stage' tidy e
  advance-CacheIsTidy b b' oidc (replied request key reply) stage' tidy l e =
      advance-replied b b' oidc request key reply stage' tidy l e
  advance-CacheIsTidy b b' oidc (finished answer) stage' tidy l e = (
    moved-CacheIsTidy h laws client listing b b' (ground arith, ground arith) tidy,
    IsListed-same (finished answer) stage' (ground arith) tt,
  )
  advance-CacheIsTidy b b' oidc (approved key m) stage' tidy l e = (
    moved-CacheIsTidy h laws client listing (local_report h b key m) b' (ground arith, ground arith)
        (local_report-CacheIsTidy h laws client listing b key m tidy),
    IsListed-same (finished (success (verdict true))) stage' (ground arith) tt,
  )

  step-SystemIsTidy :
      (oidc : Bool) (s s' : System W S Q) (i : ℕ)
      → SystemIsTidy s
      → step h oidc s i ≡ ok s'
      → SystemIsTidy s'
  unfolding step
  step-SystemIsTidy oidc s s' i (tidy, all) e = elim (Option-cases (get_elem? s.threads i)) [
    | inl p ↦ SystemIsTidy-same (s) s' (ground arith) (tidy, all)
    | inr (stage, p) ↦ elim (Outcome-cases (advance h s.backend oidc stage)) [
      | inl q ↦ absurd (ground arith)
      | inr (r, q) ↦
          let (tidy', listed) =
            advance-CacheIsTidy s.backend r.1 oidc stage r.0 tidy (all i stage p) q in
          SystemIsTidy-same (record { backend = r.1; threads = set i r.0 s.threads }) s'
            (ground arith) (tidy', set-AllAt (λ j. IsListed) i r.0 s.threads listed all)
    ]
  ]

  -- Whatever requests run over a backend, hits and misses, and however their steps interleave, which
  -- are the read of the cache, the call of 3scale after a miss, the entry of its answer in the cache
  -- and the local report, also where several miss the same application and enter it one after the
  -- other: every application in
  -- the cache stays as the code expects it, with each metric listed once, slices of its own, and no
  -- metric counted both with and without limits. The premise is that 3scale answers with states that
  -- list every metric once, also in the answers that are still to be entered.
  pub run-SystemIsTidy :
      (oidc : Bool) (schedule : List ℕ) (s s' : System W S Q)
      → SystemIsTidy s
      → run h oidc s schedule ≡ ok s'
      → SystemIsTidy s'
  unfolding run
  run-SystemIsTidy oidc [] s s' tidy e = SystemIsTidy-same (s) s' (ground arith) tidy
  run-SystemIsTidy oidc (i ∷ schedule) s s' tidy e = elim (Outcome-cases (step h oidc s i)) [
    | inl p ↦ absurd (ground arith)
    | inr (s1, p) ↦
        run-SystemIsTidy oidc schedule s1 s' (step-SystemIsTidy oidc s s1 i tidy p) (ground arith)
  ]
