-- ===== src/ClientBuilder/Reporting.antt =====
-- What `RoundTrip` answers and reports.
use scale_authorizer.Prelude.{◌-ℤ◌, Option, none, some, ◌≡◌, arith, ◌⊎◌, inl, inr, ap}
use scale_authorizer.Prelude.Outcome.{ok}
use scale_authorizer.Api.{Error}
use scale_authorizer.ClientBuilder.{HttpRequest, HttpResponse, MetricsRoundTripper, round_trip}

module _ {W : Type 0} (mt : MetricsRoundTripper W) (req : HttpRequest) (world : W) where
  -- What the transport does, once the clock was read.
  abbrev pub sent : (Option HttpResponse × Option Error) × W
  sent = mt.proxied req (mt.now world).1

  -- A transport gives a response where it gives no error.
  abbrev pub IsAnswered : Type 0
  IsAnswered =
      ((e : Error) × (sent.0.1 ≡ some e)) ⊎ ((r : HttpResponse) × (sent.0 ≡ (some r, none)))

  -- The outside afterwards: the hook is called once after a response, with the time between the two
  -- readings of the clock, and not after an error.
  abbrev pub after : Option HttpResponse × Option Error → W
  after (response, some e) = sent.1
  after (none, none) = sent.1
  after (some response, none) =
      mt.hook
        (record {
          host = req.host;
          method = req.method;
          endpoint = req.url.path;
          code = response.status_code;
          time_taken = (mt.now sent.1).0 -ℤ (mt.now world).0;
        })
        (mt.now sent.1).1

  -- If the transport gives an error or a response, the round trip does not panic and answers what
  -- the transport answers. The hook is called once where there is no error, and else not at all.
  pub round_trip_lem : IsAnswered → round_trip mt req world ≡ ok (sent.0, after sent.0)
  unfolding round_trip
  round_trip_lem (inl (e, failed)) = ground arith
  round_trip_lem (inr (r, replied)) = ground (arith, ap (λ a. a.0) replied, ap (λ a. a.1) replied)
