-- ===== src/InFlight/Races.antt =====
-- Two requests in flight whose hits no longer fit together.
use scale_authorizer.Prelude.{
  String, ℕ, get_elem?, if◌then◌else◌, Bool, true, false, some, List, [], ◌∷◌, ◌≡◌, refl, arith,
  ◌∙◌, eq_refl, ap,
}
use scale_authorizer.Prelude.Outcome.{ok}
use scale_authorizer.Api.{Transaction, Request, success, Metrics}
use scale_authorizer.Application.{Application}
use scale_authorizer.Counters.{is_authorized, report_metrics}
use scale_authorizer.Host.{IsConcurrentMap}
use scale_authorizer.Backend.{Host, Backend, call_back}
use scale_authorizer.Backend.Miss.{verdict}
use scale_authorizer.Backend.Authorize.{local_report}
use scale_authorizer.Backend.Decisions.{key_of, affected, cache-local_report, cache-call_back}
use scale_authorizer.InFlight.{Stage, started, approved, finished, advance, System, set, step, run}
use scale_authorizer.InFlight.Served.{advance-checked}

abbrev pub answer : Bool → Stage
answer authorized = finished (success (verdict authorized))

module _ {W S Q H : Type 0} (h : Host W S Q H) where
  open h use {cmap}

  -- Two requests about one application: each alone is within the limits, the second after the first
  -- is not.
  pub record Compete (b : Backend W S Q) (app : Application) (one two : Request) : Type 0 where
    pub t : Transaction
    pub t' : Transaction
    pub rest : List Transaction
    pub rest' : List Transaction
    pub first : one.transactions ≡ t ∷ rest
    pub first' : two.transactions ≡ t' ∷ rest'
    pub same_key : key_of h two t' ≡ key_of h one t
    pub cached : cmap.get b.cache (key_of h one t) ≡ some app
    pub fits : is_authorized app (affected h app t) ≡ true
    pub fits' : is_authorized app (affected h app t') ≡ true
    pub exceeds :
        let after = report_metrics app (affected h app t) in
        is_authorized after (affected h after t') ≡ false

  run-advance :
      (oidc : Bool) (s : System W S Q) (i : ℕ) (schedule : List ℕ) (stage stage' : Stage)
      (b' : Backend W S Q)
      → get_elem? s.threads i ≡ some stage
      → advance h s.backend oidc stage ≡ ok (stage', b')
      → run h oidc s (i ∷ schedule)
        ≡ run h oidc (record { backend = b'; threads = set i stage' s.threads }) schedule
  unfolding run step
  run-advance oidc s i schedule stage stage' b' at e = ground arith

  module _ (oidc : Bool) (laws : IsConcurrentMap cmap) (b : Backend W S Q) (app : Application)
      (one two : Request) (c : Compete b app one two) where
    open c use {t, t', rest, rest', first, first', same_key, cached, fits, fits', exceeds}

    abbrev pub key : String
    key = key_of h one t

    abbrev pub hits : Metrics
    hits = affected h app t

    -- The application after the report of the first request.
    abbrev pub after : Application
    after = report_metrics app hits

    abbrev pub with_threads : Backend W S Q → Stage → Stage → System W S Q
    with_threads b' x y = record { backend = b'; threads = x ∷ y ∷ [] }

    one_approved : advance h b oidc (started one) ≡ ok (approved key hits, call_back h b)
    one_approved = ground (arith, advance-checked h oidc b app one t rest first cached)

    -- The second request, over a cache with the application as it is then.
    two_checked :
        (b' : Backend W S Q) (now : Application)
        → cmap.get b'.cache key ≡ some now
        → advance h b' oidc (started two)
          ≡ ok (
            (if is_authorized now (affected h now t')
                then approved key (affected h now t')
                else answer false),
            call_back h b',
          )
    two_checked b' now e =
        advance-checked h oidc b' now two t' rest' first' (ap (cmap.get b'.cache) same_key ∙ e)
        ∙ ap
            (λ k. ok (
              (if is_authorized now (affected h now t')
                  then approved k (affected h now t')
                  else answer false),
              call_back h b',
            ))
            same_key

    reported :
        (b' : Backend W S Q) (now : Application) (m : Metrics)
        → cmap.get b'.cache key ≡ some now
        → cmap.get (local_report h b' key m).cache key ≡ some (report_metrics now m)
    reported b' now m e = ground (arith, eq_refl key, cache-local_report h b' key m now laws e key)

    -- One after the other: the second request is refused.
    in_turn :
        (b' : Backend W S Q) × (run h oidc
            (with_threads b (started one) (started two))
            (0 ∷ 0 ∷ 1 ∷ 1 ∷ [])
          ≡ ok (with_threads b' (answer true) (answer false)))
    unfolding run advance
    in_turn =
        let b1 = call_back h b in
        let b2 = local_report h b1 key hits in
        let b3 = call_back h b2 in
        let c1 : cmap.get b1.cache key ≡ some app = rw cache-call_back cached in
        let second : advance h b2 oidc (started two) ≡ ok (answer false, b3) =
          ground (arith, two_checked b2 after (reported b1 app hits c1)) in
        (
          b3,
          run-advance oidc (with_threads b (started one) (started two)) 0 (0 ∷ 1 ∷ 1 ∷ [])
                (started one) (approved key hits) b1 refl one_approved
              ∙ run-advance oidc (with_threads b1 (approved key hits) (started two)) 0 (1 ∷ 1 ∷ [])
                  (approved key hits) (answer true) b2 refl refl
              ∙ run-advance oidc (with_threads b2 (answer true) (started two)) 1 (1 ∷ [])
                  (started two) (answer false) b3 refl second
              ∙ run-advance oidc (with_threads b3 (answer true) (answer false)) 1 ([])
                  (answer false) (answer false) b3 refl refl,
        )

    -- The checks before the reports: both are authorized, and both are counted.
    interleaved :
        (b' : Backend W S Q) × (run h oidc
            (with_threads b (started one) (started two))
            (0 ∷ 1 ∷ 0 ∷ 1 ∷ [])
          ≡ ok (with_threads b' (answer true) (answer true)))
        × (cmap.get b'.cache key ≡ some (report_metrics after (affected h app t')))
    unfolding run advance
    interleaved =
        let b1 = call_back h b in
        let b2 = call_back h b1 in
        let b3 = local_report h b2 key hits in
        let b4 = local_report h b3 key (affected h app t') in
        let c1 : cmap.get b1.cache key ≡ some app = rw cache-call_back cached in
        let c2 : cmap.get b2.cache key ≡ some app = rw (cache-call_back h b1) c1 in
        let second : advance h b1 oidc (started two) ≡ ok (approved key (affected h app t'), b2) =
          ground (arith, two_checked b1 app c1) in
        (
          b4,
          run-advance oidc (with_threads b (started one) (started two)) 0 (1 ∷ 0 ∷ 1 ∷ [])
                (started one) (approved key hits) b1 refl one_approved
              ∙ run-advance oidc (with_threads b1 (approved key hits) (started two)) 1 (0 ∷ 1 ∷ [])
                  (started two) (approved key (affected h app t')) b2 refl second
              ∙ run-advance oidc
                  (with_threads b2 (approved key hits) (approved key (affected h app t'))) 0
                  (1 ∷ []) (approved key hits) (answer true) b3 refl refl
              ∙ run-advance oidc (with_threads b3 (answer true) (approved key (affected h app t')))
                  1 ([]) (approved key (affected h app t')) (answer true) b4 refl refl,
          reported b3 after (affected h app t') (reported b2 app hits c2),
        )

    -- Of two such requests that run one after the other the second is refused. If both are checked
    -- before either reports, both are authorized, and the cached application counts both.
    pub in_turn-interleaved :
        ((b' : Backend W S Q) × (run h oidc
              (with_threads b (started one) (started two))
              (0 ∷ 0 ∷ 1 ∷ 1 ∷ [])
            ≡ ok (with_threads b' (answer true) (answer false))))
        × ((b' : Backend W S Q) × (run h oidc
                (with_threads b (started one) (started two))
                (0 ∷ 1 ∷ 0 ∷ 1 ∷ [])
              ≡ ok (with_threads b' (answer true) (answer true)))
            × (cmap.get b'.cache key ≡ some (report_metrics after (affected h app t'))))
    in_turn-interleaved = (in_turn, interleaved)
