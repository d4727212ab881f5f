-- ===== src/Tests/Wholes.antt =====
-- Witnesses for whole flushes.
use mathlib.Core.Path.{subst}
use scale_authorizer.Prelude.{
  take, String, ℕ, ◌≡◌, Dict, true, false, Option, none, some, List, [], ◌∷◌, ◌++◌, map, refl,
  arith, inl, inr, ◌⊎◌, ◌==◌, Bool-cases, eq_iff,
}
use scale_authorizer.Prelude.Map.{get, keys, IsMap}
use scale_authorizer.Prelude.Outcome.{ok, panic}
use scale_authorizer.Api.{Transaction, Reply, AuthorizeResult, Error, success}
use scale_authorizer.Application.{Application, get_cache_key}
use scale_authorizer.Counters.Deltas.{unreported, or_else}
use scale_authorizer.Counters.Reported.{IsTidy}
use scale_authorizer.Adjust.{HandledApp}
use scale_authorizer.Backend.{Host, Backend}
use scale_authorizer.Host.{Client, Logger}
use scale_authorizer.LocalCache
use scale_authorizer.Flush.{snapshot_of, enqueue_cached_applications}
use scale_authorizer.Flush.Overflow.{enqueue_cached_applications-take}
use scale_authorizer.Flush.Settle.{flush, settle_reported, updated_entry}
use scale_authorizer.Flush.Draining.{AllReportable}
use scale_authorizer.Flush.Enqueuing.{Holds, copies}
use scale_authorizer.Flush.Outcomes.{deltas_of}
use scale_authorizer.Flush.Sent.{transaction_of}
use scale_authorizer.Flush.Whole.{IsKeyed, Settles, replaced, flushed, flush_lem}
use scale_authorizer.Flush.Outage.{IsIntact, flush_outage}
use scale_authorizer.Flush.Unlogged.{flush_unlogged}
use scale_authorizer.Flush.Unanswered.{IsReported, AllTidy-reportable, flush_unanswered}
use scale_authorizer.Tests.World.{
  zone, report_of, lib, lib-AddsMetrics, cmap, cmap-IsConcurrentMap, lane-IsDeque, Items, app,
  answer, timed_out, client, logger, host, backend,
}

abbrev pub down : Reply AuthorizeResult
down = record { result = none; error = some timed_out }

abbrev entries : Dict Application
entries = ("svc_app", app) ∷ []

-- Reports that fail or not, and no states.
abbrev cached : Option Error → Backend ℕ (Dict Application) Items
cached reported = backend down reported entries []

listed : (reported : Option Error) → LocalCache.keys cmap (cached reported).cache ≡ keys entries
unfolding LocalCache.keys
listed reported = refl

entries-IsMap : IsMap entries
unfolding get
entries-IsMap = (refl, tt)

held : Holds cmap entries entries
unfolding get
held = (refl, tt)

pub keyed : IsKeyed entries
unfolding snapshot_of get_cache_key
keyed = (refl, tt)

app-separate : (k : String) → (get k app.local_state ≡ none) ⊎ (get k app.unlimited_counter ≡ none)
unfolding get
app-separate k = elim (Bool-cases ("hits" == k)) [
  | inl p ↦ inr (subst (λ j. get j app.unlimited_counter ≡ none) ((eq_iff "hits" k).0 p) refl)
  | inr p ↦ inl (ground arith)
]

pub app-IsTidy : IsTidy app
unfolding get
app-IsTidy = record {
  limited = (refl, tt);
  unlimited = (refl, tt);
  apart = refl;
  separate = app-separate;
}

reportable : AllReportable host (copies entries)
reportable = AllTidy-reportable host lib-AddsMetrics entries (app-IsTidy, tt)

-- A world that lists what reports send.
abbrev recorder : Client (List Transaction)
recorder = record {
  authorize = λ r w. (down, w);
  oauth_authorize = λ r w. (down, w);
  report = λ r w. (none, w ++ r.transactions);
  peer = "peer";
}

abbrev silent : Logger (List Transaction)
silent = record { infof = λ m w. w; errorf = λ m w. w; debugf = λ m w. w }

abbrev recording : Host (List Transaction) (Dict Application) Items (Unit {0})
recording = record {
  cmap = cmap;
  lane = host.lane;
  lib = lib;
  zone = zone;
  new_client = λ url c. success recorder;
  client_with_timeout = λ n. tt;
}

abbrev recorded : Backend (List Transaction) (Dict Application) Items
recorded = record {
  client = recorder;
  cache = entries;
  queue = record { capacity = 100; items = [] };
  policy = none;
  logger = some silent;
  cache_hit_callback = none;
  world = [];
}

flush_unanswered_example :
    (b' : Backend (List Transaction) (Dict Application) Items) × (flush recording 3 recorded
      ≡ some (ok b'))
    × (b'.world ≡ [] ++ map (transaction_of recording) (copies entries))
    × ((j : String) (a : Application)
        → get j entries ≡ some a
        → ((m : String)
            → get m (deltas_of recording (snapshot_of j a))
              ≡ or_else (get m a.unlimited_counter) (unreported a m))
          × ((app' : Application) × (get j b'.cache ≡ some app') × IsReported a app'))
flush_unanswered_example =
    flush_unanswered recording lib-AddsMetrics recorder silent (λ w. w) cmap-IsConcurrentMap
      lane-IsDeque (λ r. down) recorded entries 3
      (record { report_lem = λ r w. refl; authorize_lem = λ r w. refl })
      (record {
        sent-report = λ r w. refl;
        sent-authorize = λ r w. refl;
        sent-errorf = λ m w. refl;
      })
      (λ r. (timed_out, refl)) refl refl refl (omega arith) (omega arith) (listed none)
      entries-IsMap held keyed (app-IsTidy, tt)

abbrev IntactAt : Backend ℕ (Dict Application) Items → Type 0
IntactAt =
    IsIntact host (client down (some timed_out)) logger lane-IsDeque (λ r. down)
      (record { report_lem = λ r w. refl; authorize_lem = λ r w. refl }) (λ r. (timed_out, refl))
      (cached (some timed_out))

flush_outage_example :
    (b' : Backend ℕ (Dict Application) Items) × (flush host 3 (cached (some timed_out))
      ≡ some (ok b'))
    × IntactAt b'
flush_outage_example =
    flush_outage host (client down (some timed_out)) logger lane-IsDeque (λ r. down)
      (record { report_lem = λ r w. refl; authorize_lem = λ r w. refl }) (λ r. (timed_out, refl))
      (cached (some timed_out)) entries 3 (refl, refl, refl, refl, refl) (omega arith) (omega arith)
      (listed (some timed_out)) held reportable

-- The application as the flush leaves it: nothing of it is known from 3scale.
abbrev reported : String → Application → Application
reported k a = settle_reported host (flushed host false (λ r. down) k a) a

settles : Settles host false (λ r. down) reported entries
unfolding updated_entry
settles = (refl, tt)

flush_example :
    (b' : Backend ℕ (Dict Application) Items) × (flush host 3 (cached none) ≡ some (ok b'))
    × ((j : String)
        → get j b'.cache
          ≡ replaced host false (λ r. down) reported j (get j entries) (get j entries))
flush_example =
    flush_lem host false (λ r. down) reported (client down none) (some logger) cmap-IsConcurrentMap
      lane-IsDeque (cached none) entries 3
      (record { report_lem = λ r w. refl; authorize_lem = λ r w. refl }) (inl (logger, refl)) refl
      refl refl (omega arith) (omega arith) (listed none) entries-IsMap held keyed reportable
      settles

-- As `NewBackend` makes it, without a logger.
abbrev unlogged : Backend ℕ (Dict Application) Items
unlogged = record (cached (some timed_out)) { logger = none }

flush_unlogged_example : flush host 3 unlogged ≡ some panic
flush_unlogged_example =
    flush_unlogged host (client down (some timed_out)) lane-IsDeque (λ r w. refl) unlogged "svc_app"
      app [] 3 refl refl refl (omega arith) (omega arith) (listed (some timed_out)) held reportable

abbrev handled : HandledApp
handled = record {
  snapshot = app;
  reporting_err = false;
  auth_err = false;
  auth_resp = some (answer true);
  deltas = [];
}

limited : get "hits" app.local_state ≡ some (report_of 1 5 10 ∷ [])
unfolding get
limited = refl

-- Two applications, and room for one.
abbrev crowd : Dict Application
crowd = ("svc_app", app) ∷ ("svc_other", app) ∷ []

abbrev narrow : Backend ℕ (Dict Application) Items
narrow = record (backend down none crowd []) { queue = record { capacity = 1; items = [] } }

crowd_listed : LocalCache.keys cmap narrow.cache ≡ keys crowd
unfolding LocalCache.keys
crowd_listed = refl

crowd_held : Holds cmap crowd crowd
unfolding get
crowd_held = (refl, (refl, tt))

enqueue_cached_applications-take_example :
    (q : Items) × (enqueue_cached_applications host narrow ≡ record narrow { queue = q })
    × (q.items ≡ take 1 (copies crowd))
enqueue_cached_applications-take_example =
    enqueue_cached_applications-take host lane-IsDeque narrow crowd crowd_listed crowd_held refl
