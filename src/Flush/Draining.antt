-- ===== src/Flush/Draining.antt =====
-- The loop of `handleFlushReporting` for any account of what a batch does: `Kept` holds of the
-- backend between two rounds, by the applications handled so far, and `Handles` says what becomes of
-- a list of applications.
use scale_authorizer.Prelude.{
  String, ℕ, zero, suc, ◌+◌, ◌*◌, ◌≤◌, ◌<◌, true, false, Option, some, List, [], ◌∷◌, ◌++◌, ◌≡◌, ap,
  ◌∙◌, arith, ◌==◌, if◌then◌else◌, eq_refl, Bool-cases, inl, inr, length,
}
use mathlib.Core.Path.{subst}
use mathlib.Core.List.{append-nil, append_assoc}
use scale_authorizer.Prelude.Outcome.{Outcome, ok}
use scale_authorizer.Api.{Metrics}
use scale_authorizer.Application.{Application}
use scale_authorizer.Counters.{calculate_deltas}
use scale_authorizer.Adjust.{HandledApp}
use scale_authorizer.Host.{IsDeque}
use scale_authorizer.Queue
use scale_authorizer.Backend.{Host, Backend}
use scale_authorizer.Flush.{report_grouped_apps, finish_batches, drain}

module _ {W S Q H : Type 0} (h : Host W S Q H) where
  open h use {lane, lib}

  -- The deltas of every application can be computed.
  abbrev pub AllReportable : List Application → Type 0
  AllReportable [] = Unit {0}
  AllReportable (app ∷ apps) =
      ((d : Metrics) × (calculate_deltas lib app ≡ ok d)) × AllReportable apps

  AllReportable-append :
      (xs ys : List Application) → AllReportable xs → AllReportable ys → AllReportable (xs ++ ys)
  AllReportable-append [] ys rx ry = ry
  AllReportable-append (x ∷ xs) ys rx ry = (rx.0, AllReportable-append xs ys rx.1 ry)

  abbrev is_named : String → ℕ
  is_named service = if service == "" then 0 else 1

  -- The service of the batch that an application is compared with.
  abbrev pub batch_service : String → Application → String
  batch_service service app = if service == "" then app.owned_by else service

  is_named-le : (service : String) → is_named service ≤ 1
  is_named-le service = ground arith

  named_of_other :
      (service : String) (x : Application)
      → (x.owned_by == batch_service service x) ≡ false
      → is_named service ≡ 1
  named_of_other service x e = ground (arith, eq_refl x.owned_by)

  module _ (laws : IsDeque lane) where
    -- The front of a queue that is not empty.
    pub shift_front :
        (q : Q) (x : Application) (rest : List Application)
        → laws.to_list q ≡ x ∷ rest
        → (lane.empty q ≡ false)
          × (Queue.shift lane q ≡ ok (x, (lane.shift q).0))
          × (laws.to_list (lane.shift q).0 ≡ rest)
    unfolding Queue.shift
    shift_front q x rest e =
        (laws.empty_lem q ∙ rw e, ground (arith, laws.shift_item q), laws.to_list-shift q ∙ rw e)

    module _ (f : ℕ) (b : Backend W S Q) (service : String) (grouped : List Application)
        (handled : List HandledApp) (x : Application) (rest : List Application)
        (front : laws.to_list b.queue ≡ x ∷ rest) where
      abbrev pub behind : Q
      behind = (lane.shift b.queue).0

      pub drain_same :
          (x.owned_by == batch_service service x) ≡ true
          → drain h (suc f) b service grouped handled
            ≡ drain h f
                (record b { queue = behind })
                (batch_service service x)
                (grouped ++ x ∷ [])
                handled
      unfolding drain Queue.is_empty
      drain_same same =
          let (full, shifts, _) = shift_front b.queue x rest front in
          rw (full, drain, shifts, drain, same, drain)

      pub drain_other :
          (hs : List HandledApp) (b' : Backend W S Q)
          → (x.owned_by == batch_service service x) ≡ false
          → report_grouped_apps h
              (record b { queue = (lane.prepend behind x).0 })
              (batch_service service x)
              grouped
            ≡ ok (hs, b')
          → drain h (suc f) b service grouped handled ≡ drain h f b' "" [] (handled ++ hs)
      unfolding drain Queue.is_empty Queue.prepend
      drain_other hs b' other reported =
          let (full, shifts, _) = shift_front b.queue x rest front in
          rw (full, drain, shifts, drain, other, drain, reported)

  -- What a batch does to its applications and to the backend.
  abbrev pub Batch :
      (List Application → Backend W S Q → Type 0)
      → (List HandledApp → List Application → Type 0)
      → Backend W S Q
      → List Application
      → List Application
      → Outcome (List HandledApp × Backend W S Q)
      → Type 0
  Batch Kept Handles b before apps o =
      (hs : List HandledApp) × (b' : Backend W S Q) × (o ≡ ok (hs, b'))
      × Handles hs apps
      × (b'.queue ≡ b.queue)
      × Kept (before ++ apps) b'

  module _ (laws : IsDeque lane) (Kept : List Application → Backend W S Q → Type 0)
      (Handles : List HandledApp → List Application → Type 0)
      (Kept-queue : (done : List Application) (b : Backend W S Q) (q : Q)
        → Kept done b
        → Kept done (record b { queue = q }))
      (Handles-append : (hs hs' : List HandledApp) (apps apps' : List Application)
        → Handles hs apps
        → Handles hs' apps'
        → Handles (hs ++ hs') (apps ++ apps'))
      (batch : (before : List Application) (b : Backend W S Q) (service : String)
          (apps : List Application)
        → Kept before b
        → AllReportable apps
        → Batch Kept Handles b before apps (report_grouped_apps h b service apps)) where
    -- The loop ends, with the queue empty and as wide as before.
    abbrev Drains :
        Q → Option (Outcome (List HandledApp × Backend W S Q)) → List Application → Type 0
    Drains q o expected =
        (hs : List HandledApp) × (b' : Backend W S Q) × (o ≡ some (ok (hs, b')))
        × Handles hs expected
        × Kept expected b'
        × (laws.to_list b'.queue ≡ [])
        × (laws.capacity b'.queue ≡ laws.capacity q)

    drain_done :
        (f : ℕ) (b : Backend W S Q) (service : String) (grouped before : List Application)
        (handled : List HandledApp)
        → laws.to_list b.queue ≡ []
        → Kept before b
        → Handles handled before
        → AllReportable grouped
        → Drains b.queue (drain h (suc f) b service grouped handled) (before ++ (grouped ++ []))
    unfolding drain finish_batches Queue.is_empty
    drain_done f b service grouped before handled q k before_h r =
        let (hs, b', p, s, same, k') = batch before b service grouped k r in
        (
          handled ++ hs,
          b',
          ground (arith, laws.empty_lem b.queue),
          rw (append-nil grouped) (Handles-append handled hs before grouped before_h s),
          rw (append-nil grouped) k',
          ap laws.to_list same ∙ q,
          ap laws.capacity same,
        )

    -- Two rounds for each application, one that may send a batch and put it back, and one that
    -- takes it, suffice.
    pub drain_lem :
        (f : ℕ) (b : Backend W S Q) (service : String) (grouped before : List Application)
        (handled : List HandledApp) (items : List Application)
        → laws.to_list b.queue ≡ items
        → length items ≤ laws.capacity b.queue
        → 2 * length items + is_named service < f
        → Kept before b
        → Handles handled before
        → AllReportable grouped
        → AllReportable items
        → Drains b.queue (drain h f b service grouped handled) (before ++ (grouped ++ items))
    drain_lem zero b service grouped before handled items q c m k s rg ri = absurd (omega arith)
    drain_lem (suc f) b service grouped before handled [] q c m k s rg ri =
        drain_done f b service grouped before handled q k s rg
    drain_lem (suc f) b service grouped before handled (x ∷ rest) q c m k s rg ri =
        let (full, shifts, left) = shift_front laws b.queue x rest q in
        let q' = (lane.shift b.queue).0 in
        let svc = batch_service service x in
        let room : length (laws.to_list q') < laws.capacity q' =
          rw (left, laws.capacity-shift b.queue) c in
        elim (Bool-cases (x.owned_by == svc)) [
          | inl same ↦
              let (hs, b', p, s', k', e', w) =
                drain_lem f (record b { queue = q' }) svc (grouped ++ x ∷ []) before handled rest
                  left (omega (arith, laws.capacity-shift b.queue)) (omega (arith, is_named-le svc))
                  (Kept-queue before b q' k) s (AllReportable-append grouped (x ∷ []) rg (ri.0, tt))
                  ri.1 in
              (
                hs,
                b',
                drain_same laws f b service grouped handled x rest q same ∙ p,
                subst (λ l. Handles hs (before ++ l)) (append_assoc grouped (x ∷ []) rest) s',
                subst (λ l. Kept (before ++ l) b') (append_assoc grouped (x ∷ []) rest) k',
                e',
                w ∙ laws.capacity-shift b.queue,
              )
          | inr other ↦
              let (some_hs, b1, reported, s1, queue, k1) =
                batch before (record b { queue = (lane.prepend q' x).0 }) svc grouped
                  (Kept-queue before b (lane.prepend q' x).0 k) rg in
              let (hs, b', p, s', k', e', w) =
                drain_lem f b1 "" [] (before ++ grouped) (handled ++ some_hs) (x ∷ rest)
                  (ap laws.to_list queue ∙ (laws.to_list-prepend q' x room ∙ ap (◌∷◌ x) left))
                  (omega (
                    arith,
                    ap laws.capacity queue,
                    laws.capacity-prepend q' x,
                    laws.capacity-shift b.queue,
                  ))
                  (omega (arith, named_of_other service x other)) k1
                  (Handles-append handled some_hs before grouped s s1) tt ri in
              (
                hs,
                b',
                drain_other laws f b service grouped handled x rest q some_hs b1 other reported ∙ p,
                subst (Handles hs) (append_assoc before grouped (x ∷ rest)) s',
                subst (λ l. Kept l b') (append_assoc before grouped (x ∷ rest)) k',
                e',
                w
                    ∙ ap laws.capacity queue
                    ∙ laws.capacity-prepend q' x
                    ∙ laws.capacity-shift b.queue,
              )
        ]
