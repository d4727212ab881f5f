-- ===== src/Flush/Unanswered.antt =====
-- A flush whose reports go through, and whose authorizations fail.
use scale_authorizer.Prelude.{
  some_inj, String, ℕ, ◌*◌, ◌≤◌, ◌<◌, Dict, false, some, List, [], ◌∷◌, ◌++◌, map, ◌≡◌, refl, ap,
  sym, ◌∙◌, arith, length, inl, inr, Bool-cases, ◌==◌,
}
use mathlib.Core.Path.{subst}
use scale_authorizer.Prelude.Map.{get, keys, IsMap, Agrees-self}
use scale_authorizer.Prelude.Outcome.{ok}
use scale_authorizer.Api.{Transaction, Request, AuthorizeResult, Reply, Error}
use scale_authorizer.Application.{Application, deep_copy, counter_at}
use scale_authorizer.Counters.{calculate_deltas, prune_unlimited_counter}
use scale_authorizer.Counters.Deltas.{
  AddsMetrics, unreported, or_else, calculate_deltas_lem, calculate_deltas-IsMap,
}
use scale_authorizer.Counters.Reported.{IsTidy, zeroed, unreported-settled, prune_self}
use scale_authorizer.Counters.Settle.{add_deltas-local, add_deltas-unlimited}
use scale_authorizer.Host.{Client, Logger, IsConcurrentMap, IsDeque}
use scale_authorizer.LocalCache
use scale_authorizer.Flush.{snapshot_of}
use scale_authorizer.Flush.Settle.{settle_reported, updated_entry, flush}
use scale_authorizer.Flush.Draining.{AllReportable}
use scale_authorizer.Flush.Enqueuing.{Holds, copies}
use scale_authorizer.Flush.Outcomes.{IsSteady, deltas_of, deltas_of_lem}
use scale_authorizer.Flush.Sent.{Records, transaction_of, flush-sent}
use scale_authorizer.Flush.Whole.{IsKeyed, flushed, Settles, flush_lem}
use scale_authorizer.Backend.{Host, Backend, get_empty_auth_request}

-- The application with all of its hits reported.
abbrev pub IsReported : Application → Application → Type 0
IsReported app app' =
    (app'.local_state ≡ app.local_state)
    × (app'.unlimited_counter ≡ [])
    × ((m : String) → unreported app' m ≡ zeroed (unreported app m))

abbrev pub AllTidy : Dict Application → Type 0
AllTidy [] = Unit {0}
AllTidy ((k, app) ∷ entries) = IsTidy app × AllTidy entries

pub get-AllTidy :
    (entries : Dict Application) (k : String) (app : Application)
    → AllTidy entries
    → get k entries ≡ some app
    → IsTidy app
unfolding get
get-AllTidy [] k app t e = absurd (ground arith)
get-AllTidy ((j, a) ∷ entries) k app t e = elim (Bool-cases (j == k)) [
  | inl p ↦ subst IsTidy (some_inj a app (rw p at e)) t.0
  | inr p ↦ get-AllTidy entries k app t.1 (rw p at e)
]

module _ {W S Q H : Type 0} (h : Host W S Q H) (adds : AddsMetrics h.lib) where
  open h use {cmap, lane, lib}

  pub copy-deltas :
      (k : String) (app : Application)
      → IsTidy app
      → (calculate_deltas lib (snapshot_of k app) ≡ ok (deltas_of h (snapshot_of k app)))
        × ((m : String)
            → get m (deltas_of h (snapshot_of k app))
              ≡ or_else (get m app.unlimited_counter) (unreported app m))
  unfolding snapshot_of deep_copy counter_at
  copy-deltas k app tidy =
      let (d, e, each) =
        calculate_deltas_lem lib (snapshot_of k app) adds tidy.limited tidy.unlimited in
      let same : deltas_of h (snapshot_of k app) ≡ d = deltas_of_lem h (snapshot_of k app) d e in
      (e ∙ ap ok (sym same), λ m. ap (get m) same ∙ each m)

  pub AllTidy-reportable :
      (entries : Dict Application) → AllTidy entries → AllReportable h (copies entries)
  AllTidy-reportable [] t = tt
  AllTidy-reportable ((k, app) ∷ entries) t =
      ((deltas_of h (snapshot_of k app), (copy-deltas k app t.0).0), AllTidy-reportable entries t.1)

  module _ (reply : Request → Reply AuthorizeResult)
      (refuses : (r : Request) → (e : Error) × ((reply r).error ≡ some e)) where
    abbrev settled : String → Application → Application
    settled k app = settle_reported h (flushed h false reply k app) app

    Settles-settled : (entries : Dict Application) → Settles h false reply settled entries
    unfolding updated_entry
    Settles-settled [] = tt
    Settles-settled ((k, app) ∷ entries) =
        let copy = snapshot_of k app in
        let request = get_empty_auth_request lib copy.owned_by copy.auth copy.params in
        (rw (refuses request).1 refl, Settles-settled entries)

    IsReported-settled :
        (k : String) (app : Application) → IsTidy app → IsReported app (settled k app)
    unfolding settle_reported snapshot_of deep_copy
    IsReported-settled k app tidy =
        let d = deltas_of h (snapshot_of k app) in
        let (computed, each) = copy-deltas k app tidy in
        let m = calculate_deltas-IsMap lib (snapshot_of k app) adds d tidy.limited computed in
        (
          add_deltas-local app d tidy.apart,
          ap (prune_unlimited_counter app.unlimited_counter) (add_deltas-unlimited app d)
              ∙ prune_self app.unlimited_counter app.unlimited_counter
                  (Agrees-self app.unlimited_counter tidy.unlimited),
          λ j. unreported-settled app d j m tidy.apart (tidy.separate j) (each j),
        )

  -- If every report goes through and no state can be fetched, there is a logger, the queue is empty
  -- and has room for the cached applications, their keys parse to their own identity, and each has
  -- every metric once and either with or without limits, then a flush ends without a panic. It has
  -- sent one transaction for each cached application, in the order of the cache, whose metrics
  -- are, for every metric, what was unreported of it or else its count without limits. Each cached
  -- application keeps its local counters, has no hit left to report, in any metric, and no count of a
  -- metric without limits, so that the next flush reports none of these hits again.
  pub flush_unanswered :
      (client : Client W) (l : Logger W) (sent : W → List Transaction) (laws : IsConcurrentMap cmap)
      (deque : IsDeque lane) (reply : Request → Reply AuthorizeResult) (b : Backend W S Q)
      (entries : Dict Application) (fuel : ℕ)
      → IsSteady client false reply
      → Records client l sent
      → ((r : Request) → (e : Error) × ((reply r).error ≡ some e))
      → b.client ≡ client
      → b.logger ≡ some l
      → deque.to_list b.queue ≡ []
      → length entries ≤ deque.capacity b.queue
      → 2 * length entries < fuel
      → LocalCache.keys cmap b.cache ≡ keys entries
      → IsMap entries
      → Holds cmap b.cache entries
      → IsKeyed entries
      → AllTidy entries
      → (b' : Backend W S Q) × (flush h fuel b ≡ some (ok b'))
        × (sent b'.world ≡ sent b.world ++ map (transaction_of h) (copies entries))
        × ((j : String) (app : Application)
            → get j entries ≡ some app
            → ((m : String)
                → get m (deltas_of h (snapshot_of j app))
                  ≡ or_else (get m app.unlimited_counter) (unreported app m))
              × ((app' : Application) × (cmap.get b'.cache j ≡ some app') × IsReported app app'))
  flush_unanswered client l sent laws deque reply b entries fuel steady records refuses same logger
        empty room enough listed m held keyed tidy =
      let reportable = AllTidy-reportable entries tidy in
      let (b', run, after) =
        flush_lem h false reply (settled reply refuses) client (some l) laws deque b entries fuel
          steady (inl (l, refl)) same logger empty room enough listed m held keyed reportable
          (Settles-settled reply refuses entries) in
      (
        b',
        run,
        flush-sent h client l sent deque b b' entries fuel records same logger empty room enough
            listed held reportable run,
        λ j app e. (
          (copy-deltas j app (get-AllTidy entries j app tidy e)).1,
          (
            settled reply refuses j app,
            after j ∙ rw e refl,
            IsReported-settled reply refuses j app (get-AllTidy entries j app tidy e),
          ),
        ),
      )
