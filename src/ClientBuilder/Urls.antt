-- ===== src/ClientBuilder/Urls.antt =====
-- What a client of system is built from.
use scale_authorizer.Prelude.{String, false, ◌≡◌, arith, ◌==◌}
use scale_authorizer.Api.{success}
use scale_authorizer.ClientBuilder.{Url, Net, parse_url, build_system_client}

module _ {W C P : Type 0} (net : Net W C P) where
  parse_url-port :
      (url url' : Url)
      → url.host ≡ url'.host
      → ((net.split_host_port url.host).1 == "") ≡ false
      → parse_url net url ≡ parse_url net url'
  unfolding parse_url
  parse_url-port url url' same port = ground arith

  -- The scheme of a URL that has a port is ignored: two such URLs for one host, one with http and
  -- the other with https, give the same client.
  pub build_system_client-scheme :
      (system_url system_url' access_token : String) (url url' : Url)
      → net.parse_request_uri system_url ≡ success url
      → net.parse_request_uri system_url' ≡ success url'
      → url.host ≡ url'.host
      → ((net.split_host_port url.host).1 == "") ≡ false
      → build_system_client net system_url access_token
        ≡ build_system_client net system_url' access_token
  unfolding build_system_client
  build_system_client-scheme system_url system_url' access_token url url' p p' same port =
      let equal = parse_url-port url url' same port in ground arith
