-- ===== src/Id.antt =====
-- internal/id/id.go: identifiers of a kind and a ULID. The package ulid is a parameter: an encoding
-- of 26 bytes, ParseStrict, which reads it back, and the time in a ULID.
pub mod Parsing
use manualbox.Prelude.{
  ℕ, ◌≡◌, ◌≢◌, refl, sym, ap, ◌∙◌, Bool, true, false, ◌&&◌, not, Option, none, some, List, [], ◌∷◌,
  ◌++◌, arith, Result, Result-cases, ok, err, ok-injective, if◌then◌else◌, ◌==◌, Bool-cases, ◌⊎◌,
  inl, inr,
}
use manualbox.Prelude.Text.{Text, text, text_eq, text_eq_iff, text_eq_refl}
use manualbox.Prelude.Lists.{length}
use manualbox.Clock.{Stamp, Instant, time}

-- github.com/oklog/ulid/v2, as far as it is used
pub record UlidLibrary : Type 1 where
  pub Ulid : Type 0
  pub encode : Ulid → Text
  pub parse_strict : Text → Result Text Ulid
  pub time_of : Ulid → Stamp
  pub encode_length : (u : Ulid) → length (encode u) ≡ 26
  pub encode_parses : (u : Ulid) → parse_strict (encode u) ≡ ok u

-- The kinds' prefixes.
abbrev pub kinds : List Text
kinds =
    text "usr"
    ∷ text "ses"
    ∷ text "loc"
    ∷ text "dev"
    ∷ text "doc"
    ∷ text "ast"
    ∷ text "pln"
    ∷ text "occ"
    ∷ text "job"
    ∷ text "ntf"
    ∷ text "trm"
    ∷ []

abbrev pub underscore : ℕ
underscore = 95

-- strings.Cut(s, "_")
unfoldable pub cut : Text → Option (Text × Text)
cut [] = none
cut (c ∷ s) =
    let rest = cut s in
    if c == underscore
    then some ([], s)
    else elim rest [ none ↦ none | some (k, r) ↦ some (c ∷ k, r) ]

pub data IdError : Type 0 where
  missing_prefix : IdError
  bad_length : ℕ → IdError
  bad_ulid : Text → IdError

module _ (lib : UlidLibrary) where
  -- New, of the ULID that MustNew makes
  unfoldable pub new : Text → lib.Ulid → Text
  new k u = k ++ (text "_" ++ lib.encode u)

  -- Parse
  unfoldable pub read_ulid : Text → Text → Result IdError (Text × lib.Ulid)
  read_ulid k rest =
      if not (length rest == 26)
      then err (bad_length (length rest))
      else elim (lib.parse_strict rest) [ err m ↦ err (bad_ulid m) | ok u ↦ ok (k, u) ]

  unfoldable pub parse : Text → Result IdError (Text × lib.Ulid)
  unfolding read_ulid
  parse s = elim (cut s) [ none ↦ err missing_prefix | some (k, rest) ↦ read_ulid k rest ]

  -- Valid
  unfoldable pub is_valid : Text → Text → Bool
  is_valid k s = elim (parse s) [ err e ↦ false | ok (got, u) ↦ text_eq got k ]

  -- Time
  unfoldable pub created : Text → Result IdError Instant
  created s = elim (parse s) [ err e ↦ err e | ok (k, u) ↦ ok (time (lib.time_of u)) ]
