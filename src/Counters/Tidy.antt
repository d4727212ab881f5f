-- ===== src/Counters/Tidy.antt =====
-- Applications whose maps are as the code builds them.
use mathlib.Core.Path.{subst}
use scale_authorizer.Prelude.{
  String, ℤ, none, [], ◌∷◌, ◌≡◌, refl, arith, eq_iff, inl, inr, add_int, Option-cases, Bool-cases,
  ◌==◌, ◌∙◌,
}
use scale_authorizer.Prelude.Map.{get, IsMap, IsMap-put, IsMap-alter, get-put, get-alter}
use scale_authorizer.Prelude.Outcome.{ok}
use scale_authorizer.Api.{Request, AuthorizeResult, Metrics, ApiLib}
use scale_authorizer.Application.{
  Application, or_empty, or_zero, ordered, get_application_from_response, new_application,
  annotate_with_request_details,
}
use scale_authorizer.Counters.{
  update_counters, update_unlimited_counter, report_metric, report_metrics,
}
use scale_authorizer.Counters.Reported.{IsTidy}

report_metric-IsTidy :
    (a : Application) (k : String) (v : ℤ) → IsTidy a → IsTidy (report_metric a k v)
unfolding report_metric update_unlimited_counter
report_metric-IsTidy a k v tidy = elim (Option-cases (get k a.local_state)) [
  | inl e ↦
      rw (e, report_metric)
        (record {
          limited = tidy.limited;
          unlimited =
              IsMap-put k (add_int (or_zero (get k a.unlimited_counter)) v) a.unlimited_counter
                tidy.unlimited;
          apart = tidy.apart;
          separate = λ j. elim (tidy.separate j) [
            | inl u ↦ inl u
            | inr u ↦ elim (Bool-cases (k == j)) [
              | inl p ↦ inl (subst (λ i. get i a.local_state ≡ none) ((eq_iff k j).0 p) e)
              | inr p ↦
                  let v' = add_int (or_zero (get k a.unlimited_counter)) v in
                  inr (get-put k j v' a.unlimited_counter ∙ rw (p, u) refl)
            ]
          ];
        })
  | inr (rs, e) ↦
      rw (e, report_metric)
        (record {
          limited = IsMap-alter k (update_counters v) a.local_state tidy.limited;
          unlimited = tidy.unlimited;
          apart = tidy.apart;
          separate = λ j. elim (tidy.separate j) [
            | inl u ↦ inl (get-alter k j (update_counters v) a.local_state ∙ ground arith)
            | inr u ↦ inr u
          ];
        })
]

-- Local reports keep an application tidy.
pub report_metrics-IsTidy : (a : Application) (m : Metrics) → IsTidy a → IsTidy (report_metrics a m)
unfolding report_metrics
report_metrics-IsTidy a [] tidy = tidy
report_metrics-IsTidy a ((k, v) ∷ m) tidy =
    report_metrics-IsTidy (report_metric a k v) m (report_metric-IsTidy a k v tidy)

IsTidy-same :
    (a b : Application)
    → (b.local_state ≡ a.local_state)
      × (b.unlimited_counter ≡ a.unlimited_counter)
      × (b.shared ≡ a.shared)
    → IsTidy a
    → IsTidy b
IsTidy-same a b (l, u, s) tidy = record {
  limited = rw l tidy.limited;
  unlimited = rw u tidy.unlimited;
  apart = s ∙ tidy.apart;
  separate = λ k. rw (l, u) (tidy.separate k);
}

response_parts :
    (lib : ApiLib) (resp : AuthorizeResult) (a : Application)
    → get_application_from_response lib resp ≡ ok a
    → (a.local_state ≡ or_empty (ordered lib resp.usage_reports))
      × (a.unlimited_counter ≡ [])
      × (a.shared ≡ [])
unfolding get_application_from_response new_application
response_parts lib resp a e = ground arith

-- An application that has just been learned, from an answer that lists each metric once.
pub response-IsTidy :
    (lib : ApiLib) (resp : AuthorizeResult) (a : Application)
    → IsMap (or_empty (ordered lib resp.usage_reports))
    → get_application_from_response lib resp ≡ ok a
    → IsTidy a
unfolding get
response-IsTidy lib resp a m e =
    let (l, u, s) = response_parts lib resp a e in
    record { limited = rw l m; unlimited = rw u tt; apart = s; separate = λ k. inr (rw u refl) }

pub annotate-IsTidy :
    (lib : ApiLib) (a : Application) (request : Request)
    → IsTidy a
    → IsTidy (annotate_with_request_details lib a request)
unfolding annotate_with_request_details
annotate-IsTidy lib a request =
    IsTidy-same a (annotate_with_request_details lib a request)
      (ground arith, ground arith, ground arith)
