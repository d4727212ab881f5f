-- ===== src/Manager/Retries.antt =====
-- How often the callback of a cached configuration fetches it again.
use scale_authorizer.Prelude.{
  String, ℕ, zero, suc, ◌≤◌, ◌-◌, ℤ, pos, Option, none, some, List, [], ◌∷◌, ◌≡◌, refl, arith, ap,
  get_elem?,
}
use scale_authorizer.Api.{Error}
use scale_authorizer.Manager.{
  SystemRequest, Heap, Builder, set_elem, fetch_system_config_remotely, attempt, refresh_callback,
}

get_elem-set_elem :
    (i : ℕ) (n old : ℤ) (xs : List ℤ)
    → get_elem? xs i ≡ some old
    → get_elem? (set_elem i n xs) i ≡ some n
unfolding set_elem
get_elem-set_elem i n old [] e = absurd (ground arith)
get_elem-set_elem zero n old (x ∷ xs) e = refl
get_elem-set_elem (suc i) n old (x ∷ xs) e = get_elem-set_elem i n old xs e

module _ {W C : Type 0} (builder : Builder W C) (system_url : String)
    (request : SystemRequest) where
  abbrev pub fetch : W → (C × Option Error) × W
  fetch = fetch_system_config_remotely builder system_url request

  -- The outside after a number of fetches.
  abbrev pub fetched : ℕ → W → W
  fetched zero world = world
  fetched (suc n) world = fetched n (fetch world).1

  -- The first fetches fail.
  abbrev pub Failing : ℕ → W → Type 0
  Failing zero world = Unit {0}
  Failing (suc n) world = ((e : Error) × ((fetch world).0.1 ≡ some e)) × Failing n (fetch world).1

  attempt_recovers :
      (n failures : ℕ) (world : W) (config : C) (world' : W)
      → failures ≤ n
      → Failing failures world
      → fetch (fetched failures world) ≡ ((config, none), world')
      → attempt builder n system_url request world ≡ ((config, none), world')
  unfolding attempt
  attempt_recovers zero zero world config world' l f e = e
  attempt_recovers (suc n) zero world config world' l f e = ground arith
  attempt_recovers zero (suc failures) world config world' l f e = absurd (omega arith)
  attempt_recovers (suc n) (suc failures) world config world' l ((err, first), later) e =
      rw (first, attempt)
        (attempt_recovers n failures (fetch world).1 config world' (omega arith) later e)

  attempt_fails :
      (n : ℕ) (world : W)
      → Failing (suc n) world
      → ((e : Error) × ((attempt builder n system_url request world).0.1 ≡ some e))
        × ((attempt builder n system_url request world).1 ≡ fetched (suc n) world)
  unfolding attempt
  attempt_fails zero world (first, later) = (first, refl)
  attempt_fails (suc n) world ((err, first), later) =
      rw (first, attempt) (attempt_fails n (fetch world).1 later)

  -- With `n` retries left in its variable, a callback tries n + 1 fetches: if one of them succeeds,
  -- its configuration is the answer.
  pub refresh_callback_recovers :
      (variable n failures : ℕ) (heap : Heap W) (config : C) (world' : W)
      → get_elem? heap.retry_attempts variable ≡ some (pos n)
      → failures ≤ n
      → Failing failures heap.outside
      → fetch (fetched failures heap.outside) ≡ ((config, none), world')
      → ((refresh_callback builder variable system_url request heap).0 ≡ (config, none))
        × ((refresh_callback builder variable system_url request heap).1.outside ≡ world')
  unfolding refresh_callback
  refresh_callback_recovers variable n failures heap config world' e l f s =
      let done = attempt_recovers n failures heap.outside config world' l f s in
      rw e (ap (λ r. r.0) done, ap (λ r. r.1) done)

  retry_attempts-refresh_callback :
      (variable n : ℕ) (heap : Heap W) (err : Error)
      → get_elem? heap.retry_attempts variable ≡ some (pos n)
      → (fetch heap.outside).0.1 ≡ some err
      → get_elem?
          (refresh_callback builder variable system_url request heap).1.retry_attempts
          variable
        ≡ some (pos (n - 1))
  unfolding refresh_callback
  retry_attempts-refresh_callback variable zero heap err e f = ground arith
  retry_attempts-refresh_callback variable (suc n) heap err e f =
      ground (arith, get_elem-set_elem variable (pos n) (pos (suc n)) heap.retry_attempts e)

  -- If all its fetches fail, it answers an error after n + 1 fetches, and a positive variable is one
  -- less for good: the next refresh has one retry fewer.
  pub refresh_callback_fails :
      (variable n : ℕ) (heap : Heap W)
      → get_elem? heap.retry_attempts variable ≡ some (pos n)
      → Failing (suc n) heap.outside
      → ((e : Error) × ((refresh_callback builder variable system_url request heap).0.1 ≡ some e))
        × ((refresh_callback builder variable system_url request heap).1.outside
            ≡ fetched (suc n) heap.outside)
        × (get_elem?
              (refresh_callback builder variable system_url request heap).1.retry_attempts
              variable
            ≡ some (pos (n - 1)))
  unfolding refresh_callback
  refresh_callback_fails variable n heap e f =
      let (err, world) = attempt_fails n heap.outside f in
      let left = retry_attempts-refresh_callback variable n heap f.0.0 e f.0.1 in
      (rw (e, refresh_callback) err, rw (e, refresh_callback) world, left)
