-- ===== src/Queue.antt =====
-- pkg/backend/v1/queue.go: the deque of applications. A type assertion on the nil item of an empty
-- deque panics.
use scale_authorizer.Prelude.{ℕ, Bool}
use scale_authorizer.Prelude.Outcome.{Outcome, ok, ◌>>=◌, deref}
use scale_authorizer.Application.{Application}
use scale_authorizer.Host.{Deque}

module _ {Q : Type 0} (lane : Deque Q Application) where
  unfoldable pub prepend : Q → Application → Q × Bool
  prepend q application = lane.prepend q application

  unfoldable pub append : Q → Application → Q × Bool
  append q application = lane.append q application

  unfoldable pub first : Q → Outcome Application
  first q = deref (lane.first q)

  unfoldable pub last : Q → Outcome Application
  last q = deref (lane.last q)

  unfoldable pub shift : Q → Outcome (Application × Q)
  shift q = let (q', item) = lane.shift q in do application ← deref item; ok (application, q')

  unfoldable pub pop : Q → Outcome (Application × Q)
  pop q = let (q', item) = lane.pop q in do application ← deref item; ok (application, q')

  unfoldable pub is_full : Q → Bool
  is_full q = lane.full q

  unfoldable pub is_empty : Q → Bool
  is_empty q = lane.empty q

  unfoldable pub new_queue : ℕ → Q
  new_queue size = lane.new_capped size
