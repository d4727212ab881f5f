-- ===== src/Manager/Lifecycle/Closing.antt =====
-- When `Shutdown` goes through, and what it closes.
use scale_authorizer.Prelude.{
  ℕ, true, false, some, List, ◌∷◌, ◌≡◌, refl, arith, ◌↔◌, Option-cases, Bool-cases, inl, inr,
}
use scale_authorizer.Prelude.Outcome.{ok, panic, ◌>>=◌, Outcome-cases}
use scale_authorizer.Manager.{SystemCache}
use scale_authorizer.Manager.Lifecycle.{Built, is_closed, close, shutdown}

module _ {T W S : Type 0} where
  -- Both channels are there, open, and two, and they are the ones that get closed.
  abbrev pub Closes : List ℕ → Built T W S → List ℕ → Type 0
  Closes closed m closed' =
      (sc : SystemCache S) × (channel : ℕ) × (m.system_cache ≡ some sc)
      × (sc.stop_refreshing_task ≡ some channel)
      × (is_closed m.stop_flush closed ≡ false)
      × (is_closed channel (m.stop_flush ∷ closed) ≡ false)
      × (closed' ≡ channel ∷ m.stop_flush ∷ closed)

  shutdown_sound :
      (closed closed' : List ℕ) (m : Built T W S)
      → shutdown closed m ≡ ok closed'
      → Closes closed m closed'
  unfolding shutdown close
  shutdown_sound closed closed' m e = elim (Option-cases m.system_cache) [
    | inl p ↦ absurd (ground arith)
    | inr (sc, p) ↦ elim (Option-cases sc.stop_refreshing_task) [
      | inl q ↦ absurd (ground arith)
      | inr (c, q) ↦ elim (Bool-cases (is_closed m.stop_flush closed)) [
        | inl r ↦ absurd (ground arith)
        | inr r ↦ elim (Bool-cases (is_closed c (m.stop_flush ∷ closed))) [
          | inl r' ↦ absurd (ground arith)
          | inr r' ↦ (sc, c, p, q, r, r', ground arith)
        ]
      ]
    ]
  ]

  shutdown_complete :
      (closed closed' : List ℕ) (m : Built T W S)
      → Closes closed m closed'
      → shutdown closed m ≡ ok closed'
  unfolding shutdown close
  shutdown_complete closed closed' m (sc, c, p, q, r, r', e) = ground arith

  -- The channel of the manager stays closed.
  stop_flush-is_closed :
      (closed closed' : List ℕ) (m : Built T W S)
      → shutdown closed m ≡ ok closed'
      → is_closed m.stop_flush closed' ≡ true
  unfolding is_closed
  stop_flush-is_closed closed closed' m e =
      let (sc, c, _, _, _, _, all) = shutdown_sound closed closed' m e in ground arith

  shutdown_again :
      (closed : List ℕ) (m : Built T W S)
      → (shutdown closed m >>= λ closed'. shutdown closed' m) ≡ panic
  unfolding shutdown close
  shutdown_again closed m = elim (Outcome-cases (shutdown closed m)) [
    | inl p ↦ rw p refl
    | inr (closed', p) ↦ let gone = stop_flush-is_closed closed closed' m p in rw p (ground arith)
  ]

  -- `Shutdown` ends without a panic exactly if the manager has a system cache with a channel, and
  -- neither that channel nor the manager's own has been closed before, nor are they the same; then
  -- both are closed afterwards, and no other. A second `Shutdown` after it always panics.
  pub shutdown_iff :
      (closed closed' : List ℕ) (m : Built T W S)
      → ((shutdown closed m ≡ ok closed') ↔ Closes closed m closed')
        × ((shutdown closed m >>= λ again. shutdown again m) ≡ panic)
  shutdown_iff closed closed' m = (
    (shutdown_sound closed closed' m, shutdown_complete closed closed' m),
    shutdown_again closed m,
  )
