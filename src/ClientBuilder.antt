-- ===== src/ClientBuilder.antt =====
-- `ClientBuilder` of pkg/authorizer/builder.go, and `MetricsRoundTripper` of pkg/authorizer/metrics.go,
-- over the packages net, net/url, net/http and strconv.
pub mod Urls
pub mod Reporting
use scale_authorizer.Prelude.{String, ℕ, ℤ, ◌-ℤ◌, Bool, Option, none, some, ◌==◌, if◌then◌else◌}
use scale_authorizer.Api.{Error, Fallible, success, failure}
use scale_authorizer.Manager.{SystemClient}
use scale_authorizer.Prelude.Outcome.{Outcome, ok, ◌>>=◌, deref}

-- The fields of `url.URL` that are read.
pub record Url : Type 0 where
  pub scheme : String
  pub host : String
  pub path : String

-- net.SplitHostPort with the empty parts of an error, strconv.Atoi with 0 for an error,
-- url.ParseRequestURI, and the constructors of the client of system, with portals in `P`.
pub record Net (W C P : Type 0) : Type 0 where
  pub split_host_port : String → String × String
  pub atoi : String → ℤ
  pub parse_request_uri : String → Fallible Url
  pub new_admin_portal : String → String → ℤ → Fallible P
  pub new_three_scale : P → String → SystemClient W C

module _ {W C P : Type 0} (net : Net W C P) where
  open net use {split_host_port, atoi, parse_request_uri, new_admin_portal, new_three_scale}

  unfoldable pub default_port : String → String
  default_port scheme = if scheme == "http" then "80" else if scheme == "https" then "443" else ""

  -- The scheme stays empty where the URL has a port.
  unfoldable pub parse_url : Url → String × (String × ℤ)
  unfolding default_port
  parse_url url =
      let (split, port) = split_host_port url.host in
      let host = if split == "" then url.host else split in
      if port == ""
      then (url.scheme, (host, atoi (default_port url.scheme)))
      else ("", (host, atoi port))

  unfoldable pub build_system_client : String → String → Fallible (SystemClient W C)
  unfolding parse_url
  build_system_client system_url access_token = elim (parse_request_uri system_url) [
    | failure e ↦ failure e
    | success sys_url ↦
        let (scheme, (host, port)) = parse_url sys_url in
        elim (new_admin_portal scheme host port) [
          | failure e ↦ failure e
          | success ap ↦ success (new_three_scale ap access_token)
        ]
  ]

-- `TelemetryReport`
pub record TelemetryReport : Type 0 where
  pub host : String
  pub method : String
  pub endpoint : String
  pub code : ℕ
  pub time_taken : ℤ

-- The fields of a request and of a response that `RoundTrip` reads.
pub record HttpRequest : Type 0 where
  pub host : String
  pub method : String
  pub url : Url

pub record HttpResponse : Type 0 where
  pub status_code : ℕ

-- `MetricsRoundTripper` over the world; `now` reads the clock.
pub record MetricsRoundTripper (W : Type 0) : Type 0 where
  pub proxied : HttpRequest → W → (Option HttpResponse × Option Error) × W
  pub hook : TelemetryReport → W → W
  pub now : W → ℤ × W

-- A response that is nil without an error is read all the same.
unfoldable pub round_trip :
    {W : Type 0}
    → MetricsRoundTripper W
    → HttpRequest
    → W
    → Outcome ((Option HttpResponse × Option Error) × W)
round_trip mt req world =
    let (start, world1) = mt.now world in
    let ((resp, err), world2) = mt.proxied req world1 in
    elim err [
      | some e ↦ ok ((resp, some e), world2)
      | none ↦
          let (finish, world3) = mt.now world2 in
          do
            response ← deref resp
            ok (
              (resp, none),
              mt.hook
                  (record {
                    host = req.host;
                    method = req.method;
                    endpoint = req.url.path;
                    code = response.status_code;
                    time_taken = finish -ℤ start;
                  })
                  world3,
            )
    ]
