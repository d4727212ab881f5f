-- ===== src/Tests/Keys.antt =====
-- Witnesses for the cache keys.
use scale_authorizer.Prelude.{String, ◌≡◌, ◌≢◌, none, arith, eq_iff, refl}
use scale_authorizer.Key.{join_key, parse_cache_key}
use scale_authorizer.Key.RoundTrip.{
  IsPlain, unparsed, parse_cache_key-join_key, parse_cache_key_underscore,
}

svc-ne-empty : ◌≢◌ {A = String} "svc" ""
svc-ne-empty = ground (arith, eq_iff "svc" "")

app-ne-empty : ◌≢◌ {A = String} "app" ""
app-ne-empty = ground (arith, eq_iff "app" "")

svc-IsPlain : IsPlain "svc"
svc-IsPlain = (refl, (refl, (refl, tt)))

app-IsPlain : IsPlain "app"
app-IsPlain = (refl, (refl, (refl, tt)))

parse_cache_key-join_key_example :
    parse_cache_key (join_key "svc" "app")
    ≡ record { service = "svc"; application = "app"; error = none }
parse_cache_key-join_key_example =
    parse_cache_key-join_key "svc" "app" svc-IsPlain app-IsPlain svc-ne-empty app-ne-empty

parse_cache_key_underscore_example : parse_cache_key (join_key "svc" "my_app") ≡ unparsed
parse_cache_key_underscore_example = parse_cache_key_underscore "svc" "my_app" (omega arith)
