-- ===== src/Key/RoundTrip.antt =====
-- Keys are read back, and differ for different applications, while no part holds an underscore.
use Prim.Native.String.{◌++◌}
use Prim.Native.Char.{Char}
use text.Mathlib.TextLemmas.{nil-append, cons-append}
use scale_authorizer.Prelude.{
  String, ℕ, ◌+◌, ◌<◌, length, none, some, ◌≡◌, ◌≢◌, refl, ap, ◌∙◌, sym, false, List, [], ◌∷◌,
  if◌then◌else◌, arith, eq_iff, Bool-cases, inl, inr,
}
use scale_authorizer.Key.{
  join_key, split_key, extend_first, is_underscore, parse_pieces, parse_cache_key, ParsedKey,
}

-- No character is an underscore.
abbrev pub IsPlain : String → Type 0
IsPlain String.[] = Unit {0}
IsPlain (String.◌∷◌ c s) = (is_underscore c ≡ false) × IsPlain s

split_key_plain : (s : String) → IsPlain s → split_key s ≡ s ∷ []
unfolding split_key
split_key_plain String.[] h = refl
split_key_plain (String.◌∷◌ c s) h = rw (h.0, split_key_plain s h.1)

split_key-join_key :
    (s t : String) → IsPlain s → IsPlain t → split_key (s ++ ("_" ++ t)) ≡ s ∷ t ∷ []
unfolding split_key
split_key-join_key String.[] t h k = rw (nil-append, cons-append, nil-append, split_key_plain t k)
split_key-join_key (String.◌∷◌ c s) t h k = rw (cons-append, h.0, split_key-join_key s t h.1 k)

-- A key of two non-empty parts without underscores parses to these parts, with no error.
pub parse_cache_key-join_key :
    (service application : String)
    → IsPlain service
    → IsPlain application
    → service ≢ ""
    → application ≢ ""
    → parse_cache_key (join_key service application)
      ≡ record { service = service; application = application; error = none }
unfolding parse_cache_key join_key
parse_cache_key-join_key s t h k sn tn =
    rw (split_key-join_key s t h k) (ground (arith, eq_iff s "", eq_iff t ""))

second_piece : List String → String
second_piece (s ∷ t ∷ r) = t
second_piece _ = ""

first_piece : List String → String
first_piece [] = ""
first_piece (s ∷ r) = s

-- Two applications, whose services and IDs hold no underscore, share a key only if they are one.
pub join_key-injective :
    (s t s' t' : String)
    → IsPlain s
    → IsPlain t
    → IsPlain s'
    → IsPlain t'
    → join_key s t ≡ join_key s' t'
    → (s ≡ s') × (t ≡ t')
unfolding join_key first_piece second_piece
join_key-injective s t s' t' h k h' k' e =
    let p : s ∷ t ∷ [] ≡ s' ∷ t' ∷ [] =
      sym (split_key-join_key s t h k) ∙ (ap split_key e ∙ split_key-join_key s' t' h' k') in
    (ap first_piece p, ap second_piece p)

-- How many underscores a text holds.
abbrev pub underscores : String → ℕ
underscores String.[] = 0
underscores (String.◌∷◌ c s) = (if is_underscore c then 1 else 0) + underscores s

length-extend_first :
    (c : Char) (l : List String) → 0 < length l → length (extend_first c l) ≡ length l
unfolding extend_first
length-extend_first c [] h = elim h [ ]
length-extend_first c (p ∷ l) h = refl

length-split_key : (s : String) → length (split_key s) ≡ underscores s + 1
unfolding split_key
length-split_key String.[] = refl
length-split_key (String.◌∷◌ c s) = elim (Bool-cases (is_underscore c)) [
  | inl e ↦ rw e (omega (arith, length-split_key s))
  | inr e ↦ rw e (
      omega (
        arith,
        length-split_key s,
        length-extend_first c (split_key s) (omega (arith, length-split_key s)),
      ))
]

underscores-append : (s t : String) → underscores (s ++ t) ≡ underscores s + underscores t
underscores-append String.[] t = rw nil-append (omega arith)
underscores-append (String.◌∷◌ c s) t = rw cons-append (omega (arith, underscores-append s t))

-- What the parser returns where it does not see two pieces.
abbrev pub unparsed : ParsedKey
unparsed = record { service = ""; application = ""; error = some "error parsing key" }

parse_pieces-unparsed : (l : List String) → 2 < length l → parse_pieces l ≡ unparsed
unfolding parse_pieces
parse_pieces-unparsed (a ∷ b ∷ []) h = absurd (omega arith)
parse_pieces-unparsed _ h = refl

-- A key with an underscore inside its service or its application does not parse, and both parts
-- come back empty.
pub parse_cache_key_underscore :
    (service application : String)
    → 0 < underscores service + underscores application
    → parse_cache_key (join_key service application) ≡ unparsed
unfolding parse_cache_key join_key
parse_cache_key_underscore s t h = parse_pieces-unparsed (split_key (join_key s t)) (
    omega (
      arith,
      length-split_key (s ++ ("_" ++ t)),
      underscores-append s ("_" ++ t),
      underscores-append "_" t,
    ))
