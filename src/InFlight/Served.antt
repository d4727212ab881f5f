-- ===== src/InFlight/Served.antt =====
-- Requests in flight for one cached application: what the cached entry counts.
use mathlib.Core.Path.{subst}
use scale_authorizer.Prelude.{
  String, ℕ, zero, suc, ◌+◌, Bool, true, false, some, List, [], ◌∷◌, ◌≡◌, refl, arith, ap, ◌∙◌,
  some_inj, map, inl, inr, get_elem?, if◌then◌else◌, Bool-cases, Option-cases, eq_refl,
}
use scale_authorizer.Prelude.Outcome.{ok}
use scale_authorizer.Api.{Transaction, Request, success, Metrics}
use scale_authorizer.Application.{Application}
use scale_authorizer.Counters.{is_authorized, report_metrics}
use scale_authorizer.Host.{IsConcurrentMap}
use scale_authorizer.Key.{generate_cache_key_from_request}
use scale_authorizer.Backend.{
  Host, Backend, validate_transactions, compute_affected_metrics, call_back,
}
use scale_authorizer.Backend.Miss.{verdict}
use scale_authorizer.Backend.Authorize.{local_report}
use scale_authorizer.Backend.Decisions.{
  key_of, affected, fetch_hit, cache-local_report, cache-call_back,
}
use scale_authorizer.InFlight.{
  Stage, started, missed, replied, approved, finished, check, advance, System, set, step, run,
}
use scale_authorizer.InFlight.Counting.{
  replay, served, served_at, occurrences, served_at-set, served_at-get_elem?, AllAt, set-AllAt,
  report_metrics-hierarchy,
}

module _ {W S Q H : Type 0} (h : Host W S Q H) where
  open h use {cmap, lib}

  -- The thread is about the application cached under the key.
  unfoldable pub IsAbout : String → Stage → Type 0
  IsAbout key (started request) =
      (t : Transaction) × (rest : List Transaction) × (request.transactions ≡ t ∷ rest)
      × (key_of h request t ≡ key)
  IsAbout key (missed request k) = ⊥
  IsAbout key (replied request k reply) = ⊥
  IsAbout key (approved k m) = k ≡ key
  IsAbout key (finished answer) = Unit

  unfoldable pub AllAbout : String → List Stage → Type 0
  unfolding IsAbout
  AllAbout key [] = Unit
  AllAbout key (stage ∷ rest) = IsAbout key stage × AllAbout key rest

  -- What a thread counts if it is authorized: the increments of the first transaction.
  unfoldable pub increments : Application → Stage → Metrics
  increments app (started request) = elim request.transactions [
    | [] ↦ []
    | t ∷ rest ↦ affected h app t
  ]
  increments app (missed request key) = []
  increments app (replied request key reply) = []
  increments app (approved key m) = m
  increments app (finished answer) = []

  unfoldable pub increments_at : Application → List Stage → ℕ → Metrics
  unfolding increments
  increments_at app [] i = []
  increments_at app (stage ∷ rest) zero = increments app stage
  increments_at app (stage ∷ rest) (suc i) = increments_at app rest i

  -- Whatever the thread has still to count is the given increments.
  unfoldable WillCount : Application → Metrics → Stage → Type 0
  WillCount app m (started request) =
      (t : Transaction) (rest : List Transaction)
      → request.transactions ≡ t ∷ rest
      → affected h app t ≡ m
  WillCount app m (missed request key) = Unit
  WillCount app m (replied request key reply) = Unit
  WillCount app m (approved key m') = m' ≡ m
  WillCount app m (finished answer) = Unit

  -- A move of one thread: whether it reports, and that it is told so only then.
  abbrev Moves : Bool → Backend W S Q → String → Application → Metrics → Stage → Type 0
  Moves oidc b key app m stage =
      (stage' : Stage) × (b' : Backend W S Q) × (counts : Bool) × (advance h b oidc stage
        ≡ ok (stage', b'))
      × IsAbout key stage'
      × WillCount app m stage'
      × (cmap.get b'.cache key ≡ some (if counts then report_metrics app m else app))
      × (served stage' ≡ (if counts then 1 else 0) + served stage)

  -- The stage of a request whose application has been asked.
  abbrev pub checked : Application → Request → Transaction → Stage
  checked app request t =
      if is_authorized app (affected h app t)
      then approved (key_of h request t) (affected h app t)
      else finished (success (verdict false))

  pub advance-checked :
      (oidc : Bool) (b : Backend W S Q) (app : Application) (request : Request) (t : Transaction)
      (rest : List Transaction)
      → request.transactions ≡ t ∷ rest
      → cmap.get b.cache (key_of h request t) ≡ some app
      → advance h b oidc (started request) ≡ ok (checked app request t, call_back h b)
  unfolding advance validate_transactions generate_cache_key_from_request check
      compute_affected_metrics
  advance-checked oidc b app request t rest first e =
      ground (arith, fetch_hit h b request t rest first oidc app e)

  module _ (oidc : Bool) (b : Backend W S Q) (app : Application) (laws : IsConcurrentMap cmap) where
    advance-started :
        (m : Metrics) (request : Request) (t : Transaction) (rest : List Transaction)
        → request.transactions ≡ t ∷ rest
        → affected h app t ≡ m
        → cmap.get b.cache (key_of h request t) ≡ some app
        → Moves oidc b (key_of h request t) app m (started request)
    unfolding IsAbout WillCount served
    advance-started m request t rest first counted e =
        let step = advance-checked oidc b app request t rest first e in
        let c : cmap.get (call_back h b).cache (key_of h request t) ≡ some app =
          rw cache-call_back e in
        elim (Bool-cases (is_authorized app (affected h app t))) [
          | inl allowed ↦ (
            approved (key_of h request t) (affected h app t),
            call_back h b,
            false,
            ground arith,
            refl,
            counted,
            c,
            refl,
          )
          | inr refused ↦ (
            finished (success (verdict false)),
            call_back h b,
            false,
            ground arith,
            tt,
            tt,
            c,
            refl,
          )
        ]

    advance-Moves :
        (key : String) (m : Metrics) (stage : Stage)
        → IsAbout key stage
        → WillCount app m stage
        → cmap.get b.cache key ≡ some app
        → Moves oidc b key app m stage
    unfolding advance IsAbout WillCount served
    advance-Moves key m (started request) (t, rest, first, k) will e =
        subst (λ j. cmap.get b.cache j ≡ some app → Moves oidc b j app m (started request)) k
          (advance-started m request t rest first (will t rest first)) e
    advance-Moves key m (missed request k) about will e = absurd about
    advance-Moves key m (replied request k reply) about will e = absurd about
    advance-Moves key m (approved k m') about will e = (
      finished (success (verdict true)),
      local_report h b k m',
      true,
      refl,
      tt,
      tt,
      ground (arith, eq_refl key, cache-local_report h b key m app laws e key),
      refl,
    )
    advance-Moves key m (finished answer) about will e =
        (finished answer, b, false, refl, tt, tt, e, omega arith)

  -- A thread's new stage in the list.
  module _ (key : String) where
    set-AllAbout :
        (i : ℕ) (stage : Stage) (l : List Stage)
        → IsAbout key stage
        → AllAbout key l
        → AllAbout key (set i stage l)
    unfolding AllAbout
    set-AllAbout i stage [] about all = all
    set-AllAbout zero stage (old ∷ rest) about (o, all) = (about, all)
    set-AllAbout (suc i) stage (old ∷ rest) about (o, all) =
        (o, set-AllAbout i stage rest about all)

    get_elem?-IsAbout :
        (i : ℕ) (l : List Stage) (stage : Stage)
        → get_elem? l i ≡ some stage
        → AllAbout key l
        → IsAbout key stage
    unfolding AllAbout
    get_elem?-IsAbout i [] stage e all = absurd (ground arith)
    get_elem?-IsAbout zero (old ∷ rest) stage e (o, all) = subst (IsAbout key) (ground arith) o
    get_elem?-IsAbout (suc i) (old ∷ rest) stage e (o, all) = get_elem?-IsAbout i rest stage e all

  -- What each thread has still to count.
  abbrev AllWillCount : Application → (ℕ → Metrics) → List Stage → Type 0
  AllWillCount app m = AllAt (λ i. WillCount app (m i))

  WillCount-hierarchy :
      (app app' : Application) (m : Metrics) (stage : Stage)
      → app'.metric_hierarchy ≡ app.metric_hierarchy
      → WillCount app m stage
      → WillCount app' m stage
  unfolding WillCount
  WillCount-hierarchy app app' m (started request) e will =
      λ t rest first. ap (lib.add_hierarchy_to_metrics t.metrics) e ∙ will t rest first
  WillCount-hierarchy app app' m (missed request k) e will = tt
  WillCount-hierarchy app app' m (replied request k reply) e will = tt
  WillCount-hierarchy app app' m (approved k m') e will = will
  WillCount-hierarchy app app' m (finished answer) e will = tt

  increments-WillCount : (app : Application) (x : Stage) → WillCount app (increments app x) x
  unfolding increments WillCount
  increments-WillCount app (started request) = λ t rest e. rw e refl
  increments-WillCount app (missed request k) = tt
  increments-WillCount app (replied request k reply) = tt
  increments-WillCount app (approved k m) = refl
  increments-WillCount app (finished answer) = tt

  increments_at-AllWillCount :
      (app : Application) (l : List Stage) → AllWillCount app (increments_at app l) l
  unfolding increments_at increments WillCount
  increments_at-AllWillCount app [] i stage e = absurd (ground arith)
  increments_at-AllWillCount app (x ∷ rest) (suc i) stage e =
      increments_at-AllWillCount app rest i stage e
  increments_at-AllWillCount app (x ∷ rest) zero stage e =
      subst (WillCount app (increments app x)) (some_inj x stage e) (increments-WillCount app x)

  -- A run that adds the reports of some of the threads, in their order.
  abbrev pub Serves : Bool → System W S Q → List ℕ → String → Application → (ℕ → Metrics) → Type 0
  Serves oidc s schedule key app m =
      (s' : System W S Q) × (order : List ℕ) × (run h oidc s schedule ≡ ok s')
      × (cmap.get s'.backend.cache key ≡ some (replay app (map m order)))
      × ((i : ℕ) → served_at s'.threads i ≡ occurrences i order + served_at s.threads i)

  module _ (oidc : Bool) (laws : IsConcurrentMap cmap) (key : String) where
    run_lem :
        (schedule : List ℕ) (s : System W S Q) (app : Application) (m : ℕ → Metrics)
        → AllAbout key s.threads
        → AllWillCount app m s.threads
        → cmap.get s.backend.cache key ≡ some app
        → Serves oidc s schedule key app m
    unfolding run step replay occurrences
    run_lem [] s app m all will e = (s, [], refl, e, λ i. omega arith)
    run_lem (i ∷ schedule) s app m all will e = elim (Option-cases (get_elem? s.threads i)) [
      | inl absent ↦
          let (s', order, r, c, n) = run_lem schedule s app m all will e in
          (s', order, ground arith, c, n)
      | inr (stage, at) ↦
          let (stage', b, counts, r, about, next, c, n) =
            advance-Moves oidc s.backend app laws key (m i) stage
              (get_elem?-IsAbout key i s.threads stage at all) (will i stage at) e in
          let now = if counts then report_metrics app (m i) else app in
          let kept : now.metric_hierarchy ≡ app.metric_hierarchy =
            ground (arith, report_metrics-hierarchy app (m i)) in
          let (s', more, r', c', n') =
            run_lem schedule (record { backend = b; threads = set i stage' s.threads }) now m
              (set-AllAbout key i stage' s.threads about all)
              (λ j x at'.
                WillCount-hierarchy app now (m j) x kept
                  (set-AllAt (λ n. WillCount app (m n)) i stage' s.threads next will j x at'))
              c in
          (
            s',
            if counts then i ∷ more else more,
            ground arith,
            c' ∙ ground arith,
            λ j. ground (
              arith,
              n' j,
              served_at-set i j stage' stage s.threads at,
              served_at-get_elem? i j stage s.threads at,
            ),
          )
    ]

    -- Threads about one cached application, none of which is in the middle of a miss, in any order and
    -- however they interleave: none panics, and the cached application is the earlier one after the local reports of some of the
    -- threads, in some order, each with the increments of its own request. The threads that report
    -- are those that are told in the meantime that they are authorized, each once.
    pub run-Serves :
        (schedule : List ℕ) (s : System W S Q) (app : Application)
        → AllAbout key s.threads
        → cmap.get s.backend.cache key ≡ some app
        → Serves oidc s schedule key app (increments_at app s.threads)
    run-Serves schedule s app all e =
        run_lem schedule s app (increments_at app s.threads) all
          (increments_at-AllWillCount app s.threads) e
