-- ===== src/Report/Agreement.antt =====
-- `authorize` followed by a report against `authRep`.
use scale_authorizer.Prelude.{
  String, Bool, true, none, some, [], ◌∷◌, ◌≡◌, arith, ◌∙◌, ap, get_elem?,
}
use scale_authorizer.Prelude.Outcome.{ok}
use scale_authorizer.Api.{Transaction, Request, UsageReports, success}
use scale_authorizer.Application.{Application}
use scale_authorizer.Counters.{is_authorized}
use scale_authorizer.Host.{IsConcurrentMap}
use scale_authorizer.Backend.{Host, Backend, call_back}
use scale_authorizer.Backend.Miss.{verdict}
use scale_authorizer.Backend.Authorize.{authorize, auth_rep}
use scale_authorizer.Backend.Decisions.{key_of, affected, after_hit, auth_rep_hit, authorize_hit}
use scale_authorizer.Report.{report_transactions, report_task}
use scale_authorizer.Report.Rounds.{report_transaction_cached}

module _ {W S Q H : Type 0} (h : Host W S Q H) where
  open h use {cmap, lib}

  -- For a cached application that has a remote state, and a request of one transaction that is
  -- authorized: `authorize` followed by the report task gives the verdict of `authRep`, neither
  -- panics, and the two leave the same cache.
  pub authorize-report_task :
      (b : Backend W S Q) (request : Request) (t : Transaction) (oidc : Bool) (app : Application)
      (remote : UsageReports)
      → (first : request.transactions ≡ t ∷ []) → IsConcurrentMap cmap
      → cmap.get b.cache (key_of h request t) ≡ some app
      → app.remote_state ≡ some remote
      → is_authorized app (affected h app t) ≡ true
      → (b1 b2 b3 : Backend W S Q) × (auth_rep h b request oidc ≡ ok (success (verdict true), b1))
        × (authorize h b request oidc ≡ ok (success (verdict true), b2))
        × (report_task h b2 request ≡ ok b3)
        × ((j : String) → cmap.get b3.cache j ≡ cmap.get b1.cache j)
  unfolding report_task report_transactions
  authorize-report_task b request t oidc app remote first laws e r auth =
      let (replied, cached) = auth_rep_hit h b request t [] first oidc app laws e in
      let (decided, same) = authorize_hit h b request t [] first oidc app e in
      let (b3, reported, after) =
        report_transaction_cached h (call_back h b) request 0 t (ap (λ l. get_elem? l 0) first) app
          none remote laws (rw same e) r in
      (
        after_hit h b request t [] first app,
        call_back h b,
        b3,
        replied ∙ rw auth,
        decided ∙ rw auth,
        ground arith,
        λ j. ground (arith, after j, cached j),
      )
