-- ===== src/Host.antt =====
-- What the program takes from outside: the packages cmap (a concurrent map) and lane (a deque), the
-- HTTP client of 3scale-go-client, a logger, and the world that calls of these read and change.
use scale_authorizer.Prelude.{
  String, ℕ, suc, ℤ, pos, ltb_ℤ, ◌<◌, ◌≤◌, ◌≡◌, Bool, true, false, Option, none, some, List, [],
  ◌∷◌, ◌++◌, ◌==◌, length, if◌then◌else◌,
}
use scale_authorizer.Prelude.Map.{get, IsMap}
use scale_authorizer.Prelude.Outcome.{Outcome, ok, panic}
use scale_authorizer.Api.{Request, AuthorizeResult, Error, Reply}

-- cmap.ConcurrentMap, with stores in `S`. `entries` is the order in which `IterCb` calls back.
pub record ConcurrentMap (S V : Type 0) : Type 0 where
  pub new : S
  pub get : S → String → Option V
  pub set : S → String → V → S
  pub remove : S → String → S
  pub keys : S → List String
  pub count : S → ℕ
  pub entries : S → List (String × V)

-- The documented behaviour of that package, as far as the program relies on it.
pub record IsConcurrentMap {S V : Type 0} (m : ConcurrentMap S V) : Type 0 where
  pub get-new : (k : String) → m.get m.new k ≡ none
  pub get-set :
      (s : S) (k j : String) (v : V)
      → m.get (m.set s k v) j ≡ (if k == j then some v else m.get s j)
  pub get-remove :
      (s : S) (k j : String) → m.get (m.remove s k) j ≡ (if k == j then none else m.get s j)

-- How the number of entries changes.
pub record CountsEntries {S V : Type 0} (m : ConcurrentMap S V) : Type 0 where
  pub count-new : m.count m.new ≡ 0
  pub count-set :
      (s : S) (k : String) (v : V)
      → m.count (m.set s k v) ≡ elim (m.get s k) [ none ↦ suc (m.count s) | some _ ↦ m.count s ]
  pub count-remove : (s : S) (k : String) → m.count (m.remove s k) ≤ m.count s

-- IterCb visits every entry of the store once.
abbrev pub Enumerates : {S V : Type 0} → ConcurrentMap S V → S → Type 0
Enumerates m s = IsMap (m.entries s) × ((k : String) → get k (m.entries s) ≡ m.get s k)

-- lane.Deque, with queues in `Q`. `append` and `prepend` answer false on a full queue.
pub record Deque (Q A : Type 0) : Type 0 where
  pub new_capped : ℕ → Q
  pub append : Q → A → Q × Bool
  pub prepend : Q → A → Q × Bool
  pub first : Q → Option A
  pub last : Q → Option A
  pub shift : Q → Q × Option A
  pub pop : Q → Q × Option A
  pub full : Q → Bool
  pub empty : Q → Bool

abbrev pub shifted : {A : Type 0} → List A → List A × Option A
shifted [] = ([], none)
shifted (a ∷ rest) = (rest, some a)

abbrev pub is_nil : {A : Type 0} → List A → Bool
is_nil [] = true
is_nil (a ∷ rest) = false

-- The documented behaviour of that package: a queue is its list of items, front first, and holds
-- no more items than its capacity.
pub record IsDeque {Q A : Type 0} (d : Deque Q A) : Type 0 where
  pub to_list : Q → List A
  pub capacity : Q → ℕ
  pub to_list-new : (n : ℕ) → to_list (d.new_capped n) ≡ []
  pub capacity-new : (n : ℕ) → capacity (d.new_capped n) ≡ n
  pub to_list-append :
      (q : Q) (a : A)
      → length (to_list q) < capacity q
      → to_list (d.append q a).0 ≡ to_list q ++ a ∷ []
  pub append_full :
      (q : Q) (a : A) → capacity q ≤ length (to_list q) → to_list (d.append q a).0 ≡ to_list q
  pub capacity-append : (q : Q) (a : A) → capacity (d.append q a).0 ≡ capacity q
  pub to_list-prepend :
      (q : Q) (a : A) → length (to_list q) < capacity q → to_list (d.prepend q a).0 ≡ a ∷ to_list q
  pub capacity-prepend : (q : Q) (a : A) → capacity (d.prepend q a).0 ≡ capacity q
  pub to_list-shift : (q : Q) → to_list (d.shift q).0 ≡ (shifted (to_list q)).0
  pub shift_item : (q : Q) → (d.shift q).1 ≡ (shifted (to_list q)).1
  pub capacity-shift : (q : Q) → capacity (d.shift q).0 ≡ capacity q
  pub empty_lem : (q : Q) → d.empty q ≡ is_nil (to_list q)

-- threescale.Client. Of a report the program reads only whether it failed.
pub record Client (W : Type 0) : Type 0 where
  pub authorize : Request → W → Reply AuthorizeResult × W
  pub oauth_authorize : Request → W → Reply AuthorizeResult × W
  pub report : Request → W → Option Error × W
  pub peer : String

-- core.Logger, with the messages alone
pub record Logger (W : Type 0) : Type 0 where
  pub infof : String → W → W
  pub errorf : String → W → W
  pub debugf : String → W → W

-- time.NewTicker, which panics unless the interval is positive
unfoldable pub new_ticker : ℤ → Outcome ℤ
new_ticker interval = if ltb_ℤ (pos 0) interval then ok interval else panic

-- `NoOpLogger`
abbrev pub no_op_logger : {W : Type 0} → Logger W
no_op_logger = record {
  infof = λ message world. world;
  errorf = λ message world. world;
  debugf = λ message world. world;
}
