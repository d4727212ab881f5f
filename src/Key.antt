-- ===== src/Key.antt =====
-- The cache keys `<service>_<application>` of pkg/backend/v1/helpers.go and backend.go.
pub mod RoundTrip
use Prim.Native.String.{◌++◌}
use Prim.Native.Char.{Char, code}
use scale_authorizer.Prelude.{
  String, ℕ, Bool, Option, none, some, List, [], ◌∷◌, ◌==◌, not, ◌||◌, nat_beq, get_elem?,
  if◌then◌else◌,
}
use scale_authorizer.Prelude.Outcome.{Outcome, deref, ◌>>=◌, ok}
use scale_authorizer.Api.{Transaction, Request, ApiLib}

-- An application ID is the user key, or the app ID where there is none.
unfoldable pub get_app_id_from_transaction : Transaction → String
get_app_id_from_transaction t =
    let app_id = t.params.user_key in if not (app_id == "") then app_id else t.params.app_id

-- fmt.Sprintf("%s_%s", service, id)
unfoldable pub join_key : String → String → String
join_key service id = service ++ ("_" ++ id)

-- The index is out of range on a request that was not validated.
unfoldable pub generate_cache_key_from_request : ApiLib → Request → ℕ → Outcome String
unfolding get_app_id_from_transaction join_key
generate_cache_key_from_request lib request index = do
  transaction ← deref (get_elem? request.transactions index)
  ok (join_key (lib.get_service_id request) (get_app_id_from_transaction transaction))

-- The piece before the first underscore, put in front of the first piece of the rest.
unfoldable pub extend_first : Char → List String → List String
extend_first c [] = (String.◌∷◌ c String.[]) ∷ []
extend_first c (piece ∷ pieces) = (String.◌∷◌ c piece) ∷ pieces

abbrev pub is_underscore : Char → Bool
is_underscore c = nat_beq (code c) b'_'

-- strings.Split(s, "_")
unfoldable pub split_key : String → List String
unfolding extend_first
split_key String.[] = "" ∷ []
split_key (String.◌∷◌ c s) =
    let pieces = split_key s in if is_underscore c then "" ∷ pieces else extend_first c pieces

-- What is returned beside the error: the enqueuing code drops the error and uses both strings.
pub record ParsedKey : Type 0 where
  pub service : String
  pub application : String
  pub error : Option String

unfoldable pub parse_pieces : List String → ParsedKey
parse_pieces (service ∷ application ∷ []) = record {
  service = service;
  application = application;
  error =
      if service == "" || application == ""
      then some "error parsing key. empty service or application"
      else none;
}
parse_pieces _ = record { service = ""; application = ""; error = some "error parsing key" }

unfoldable pub parse_cache_key : String → ParsedKey
unfolding split_key parse_pieces
parse_cache_key key = parse_pieces (split_key key)
