-- ===== src/Id/Parsing.antt =====
-- Parse and Valid of internal/id/id.go against New.
use manualbox.Prelude.{
  ℕ, ◌≡◌, refl, sym, ap, ◌∙◌, Bool, true, false, Option, none, some, [], ◌∷◌, ◌++◌, arith, Result,
  Result-cases, ok, err, ok-injective, if◌then◌else◌, ◌==◌, Bool-cases, Option-cases, inl, inr,
}
use manualbox.Prelude.Text.{Text, text_eq}
use manualbox.Prelude.Lists.{length}
use manualbox.Id.{
  UlidLibrary, underscore, cut, IdError, missing_prefix, new, read_ulid, parse, is_valid,
}

unfoldable pub has_underscore : Text → Bool
has_underscore [] = false
has_underscore (c ∷ s) = if c == underscore then true else has_underscore s

cut-append :
    (k rest : Text) → has_underscore k ≡ false → cut (k ++ underscore ∷ rest) ≡ some (k, rest)
unfolding cut has_underscore
cut-append [] rest h = refl
cut-append (c ∷ k) rest h = rw (cut-append k rest (ground arith)) (ground arith)

cut_cons :
    (c : ℕ) (s : Text) (k : Text) (rest : Text)
    → (c == underscore) ≡ false
    → cut (c ∷ s) ≡ some (k, rest)
    → (k' : Text) × (cut s ≡ some (k', rest)) × (k ≡ c ∷ k')
unfolding cut
cut_cons c s k rest e h = elim (Option-cases (cut s)) [
  | inl gone ↦ ground arith
  | inr ((k', r), found) ↦
      let same : ◌≡◌ {A = Option (Text × Text)} (some (c ∷ k', r)) (some (k, rest)) =
        ground arith in
      (k', ground arith, ground arith)
]

cut_lem :
    (s k rest : Text)
    → cut s ≡ some (k, rest)
    → (s ≡ k ++ underscore ∷ rest) × (has_underscore k ≡ false)
unfolding has_underscore
cut_lem [] k rest h = unfold cut in cc
cut_lem (c ∷ s) k rest h = elim (Bool-cases (c == underscore)) [
  | inl e ↦ unfold cut in ground arith
  | inr e ↦
      let (k', found, whole) = cut_cons c s k rest e h in
      let (split, clean) = cut_lem s k' rest found in rw whole (ap (◌∷◌ c) split, ground arith)
]

module _ (lib : UlidLibrary) where
  parse-none : (s : Text) → cut s ≡ none → parse lib s ≡ err missing_prefix
  unfolding parse
  parse-none s e = rw (e, parse)

  parse-some : (s k rest : Text) → cut s ≡ some (k, rest) → parse lib s ≡ read_ulid lib k rest
  unfolding parse
  parse-some s k rest e = rw (e, parse)

  read_ulid_lem :
      (p rest k : Text) (u : lib.Ulid)
      → read_ulid lib p rest ≡ ok (k, u)
      → (p ≡ k) × (length rest ≡ 26) × (lib.parse_strict rest ≡ ok u)
  unfolding read_ulid
  read_ulid_lem p rest k u h = elim (Bool-cases (length rest == 26)) [
    | inr e ↦ ground arith
    | inl e ↦ elim (Result-cases (lib.parse_strict rest)) [
      | inl (m, e') ↦ ground arith
      | inr (v, e') ↦
          let same : ◌≡◌ {A = Result IdError (Text × lib.Ulid)} (ok (p, v)) (ok (k, u)) =
            ground arith in
          let pair : ◌≡◌ {A = Text × lib.Ulid} (p, v) (k, u) = ok-injective same in
          (
            ap (λ (x : Text × lib.Ulid). x.0) pair,
            ground arith,
            e' ∙ ap (λ (x : Text × lib.Ulid). ok x.1) pair,
          )
    ]
  ]

  -- What Parse accepts is a prefix without an underscore, an underscore, and a text of 26 bytes
  -- that the strict parser of ULIDs accepts; Parse returns that prefix and that ULID.
  pub parse_outcome :
      (s k : Text) (u : lib.Ulid)
      → parse lib s ≡ ok (k, u)
      → (rest : Text) × (s ≡ k ++ underscore ∷ rest)
        × (has_underscore k ≡ false)
        × (length rest ≡ 26)
        × (lib.parse_strict rest ≡ ok u)
  parse_outcome s k u h = elim (Option-cases (cut s)) [
    | inl gone ↦
        let bad : ◌≡◌ {A = Result IdError (Text × lib.Ulid)} (err missing_prefix) (ok (k, u)) =
          sym (parse-none s gone) ∙ h in
        cc
    | inr ((p, rest), found) ↦
        let (same, long, read) = read_ulid_lem p rest k u (sym (parse-some s p rest found) ∙ h) in
        let (split, clean) = cut_lem s p rest found in
        (
          rest,
          split ∙ ap (λ (x : Text). x ++ underscore ∷ rest) same,
          ap has_underscore (sym same) ∙ clean,
          long,
          read,
        )
  ]

  read_encode : (k : Text) (u : lib.Ulid) → read_ulid lib k (lib.encode u) ≡ ok (k, u)
  unfolding read_ulid
  read_encode k u = rw (lib.encode_length u, lib.encode_parses u)

  -- Parse takes a new identifier of a kind without an underscore apart into its kind and its ULID,
  -- and it is valid for that kind alone.
  pub parse-new :
      (k : Text) (u : lib.Ulid)
      → has_underscore k ≡ false
      → (parse lib (new lib k u) ≡ ok (k, u))
        × ((other : Text) → is_valid lib other (new lib k u) ≡ text_eq k other)
  unfolding is_valid
  parse-new k u h =
      let e : parse lib (new lib k u) ≡ ok (k, u) =
        parse-some (new lib k u) k (lib.encode u) (unfold new in cut-append k (lib.encode u) h)
        ∙ read_encode k u in
      (e, λ other. rw (e, is_valid))
