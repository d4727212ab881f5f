-- ===== src/Lib.antt =====
-- A verification library for the 3scale authorizer, in Go.
--
-- The program decides requests to APIs for 3scale. Its core is the package pkg/backend/v1: a
-- `Backend` caches an `Application` for each pair of a service and an application, decides requests
-- against the cached limits, counts the hits, and in a flush reports them to 3scale and fetches the
-- new state. `Prelude` holds what the files share, and the rest follows the program:
--
-- Api: the types of 3scale-go-client that the program reads, and its functions as a parameter.
-- Key: cache keys (helpers.go: getAppIDFromTransaction, generateCacheKeyFromRequest, parseCacheKey).
-- Application: `Application` and its copies (backend.go; helpers.go: getApplicationFromResponse,
--   deriveTimestamp, newApplication, contains).
-- Counters: the methods on the counters (backend.go: calculateDeltas, addDeltasToRemoteState,
--   updateUnlimitedCounter, pruneUnlimitedCounter, the loops of isAuthorized and localReport).
-- Period: hasSurpassedDeadline (helpers.go) and getElapsedPeriods (backend.go).
-- Sync: computeAddedAndRemovedMetrics, getDifferenceBetweenSets, synchronizeStates (helpers.go).
-- Adjust: adjustLocalState (backend.go).
-- Host, LocalCache, Queue: the packages cmap and lane and the client as interfaces with their
--   documented laws, and the wrappers of cache.go and queue.go.
-- Backend, Backend.Miss, Backend.Authorize: NewBackend, handleCacheMiss, the failure policy,
--   authorize and authRep (backend.go).
-- Report: report and its background task (backend.go).
-- Flush, Flush.Settle: the phases of flush (backend.go). Flush.Draining, Flush.Enqueuing,
--   Flush.Outcomes, Flush.Phases and Flush.Sent follow the applications through them, where 3scale behaves in
--   one way throughout; Flush.Process is the process that newCachedBackend of
--   pkg/authorizer/authorizer.go starts for a backend.
-- InFlight: authRep as a thread of several steps, between which other requests run (backend.go).
-- SystemCache: the cache of configurations of services (pkg/system/v1/cache/system.go).
--   SystemCache.History describes it by the history of what was done to it.
-- Manager, Manager.Lookup: GetSystemConfiguration with the cache, the callbacks that refresh its
--   values, NewSystemCache (pkg/authorizer/authorizer.go).
-- Manager.AuthRep: AuthRep with cached backends and without (pkg/authorizer/authorizer.go). The panic
--   of a cached backend whose manager has no callback for cache hits is raised by `guarded_auth_rep`,
--   if authRep comes to call it.
-- Manager.Lifecycle: NewManager, the process of its system cache, and Shutdown
--   (pkg/authorizer/authorizer.go).
-- ClientBuilder: the clients of system, and RoundTrip (builder.go and metrics.go of
--   pkg/authorizer).
-- Tests: concrete instances of the interfaces, and the witnesses.
--
-- How the model corresponds to the code. A Go map is the list of its entries in the order in which a
-- `range` visits them, and the theorems hold for every list, so for every order. A map that may be
-- nil is an Option. An int wraps around at 64 bits. A panic is a value, `panic`, that ends the
-- computation, and a method of an object returns the new object beside its result. What the client,
-- the policy, the logger and the callback do to the outside is a state of an arbitrary type, the
-- world. Slices are values, with two exceptions where sharing shows: the field `shared` names the
-- metrics whose local and remote slices are one array, and `Slice` keeps the cells behind a shortened
-- slice. A period is the number of its constant, a timestamp an integer of seconds; the sums of
-- package time do not wrap. The loop over the queue in a flush takes fuel; two units for each queued
-- application, and one more, are enough.
--
-- What the clock shows is an argument of the operations of the cache of configurations, one for each
-- reading; an instant is a number of nanoseconds there. The variable that a refresh callback holds is
-- a cell of a heap, which its calls count down. The recursion of a callback follows that number.
--
-- Locks are not modelled as such: each operation is one step on the backend, and each phase of a
-- flush is a function of its own, so that other operations may come between two phases. InFlight
-- divides authRep between the check and the local report, and a miss also before and after the call of
-- 3scale, and runs its threads in any order that a schedule lists; the read of a cached application and
-- its check are one step, and so are the entry of an application in the cache and its check. A process is a function of the list of what it selects, ticks or a
-- closed channel; a channel is a number, and the closed ones are listed. The messages of a failed
-- flush are without their arguments. Not modelled: the choice of the scheduler, the lengths of
-- intervals beyond the sign that time.NewTicker checks, and the clients that BuildBackendClient makes.
pub mod Prelude
pub mod Api
pub mod Key
pub mod Application
pub mod Counters
pub mod Period
pub mod Sync
pub mod Adjust
pub mod Host
pub mod LocalCache
pub mod Queue
pub mod Backend
pub mod Report
pub mod InFlight
pub mod Flush
pub mod SystemCache
pub mod Manager
pub mod ClientBuilder
pub mod Tests
