-- ===== src/Store/Paths.antt =====
-- ValidDigest and pathFor of internal/store/store.go.
use manualbox.Prelude.{
  ℕ, ◌*◌, ◌/◌, ◌%◌, ◌≡◌, ◌≢◌, ◌<◌, refl, sym, ap, ◌∙◌, true, none, some, [], ◌∷◌, ◌++◌, arith, ok,
  err, ◌⊎◌, inl, inr, ok-injective,
}
use manualbox.Prelude.Text.{Text, text}
use manualbox.Prelude.Lists.{length, take, drop, All}
use manualbox.Store.{
  Sha256, hex_digit, hex_encode, digest_of, is_hex, all_hex, valid_digest, blob_path, path_for,
  temp_entry, bad_digest, join,
}

abbrev pub IsValid : Text → Type 0
IsValid d = valid_digest d ≡ none

-- A valid digest is 64 hexadecimal characters in lower case.
pub valid_digest_lem : (d : Text) → IsValid d → (length d ≡ 64) × (all_hex d ≡ true)
unfolding valid_digest
valid_digest_lem d v = ground arith

IsValid-of : (d : Text) → length d ≡ 64 → all_hex d ≡ true → IsValid d
unfolding valid_digest
IsValid-of d h k = ground arith

hex_digit-is_hex : (n : ℕ) → n < 16 → is_hex (hex_digit n) ≡ true
unfolding is_hex hex_digit
hex_digit-is_hex n h = ground arith

hex_encode_lem :
    (b : Text)
    → All (λ x. x < 256) b
    → (length (hex_encode b) ≡ 2 * length b) × (all_hex (hex_encode b) ≡ true)
unfolding hex_encode all_hex
hex_encode_lem [] h = (refl, refl)
hex_encode_lem (x ∷ b) h =
    let (long, hex) = hex_encode_lem b h.1 in
    (
      omega arith,
      rw (hex_digit-is_hex (x / 16) (omega (arith, h.0)), hex_digit-is_hex (x % 16) (omega arith))
          hex,
    )

-- The digest of every content is one that pathFor accepts.
pub digest_of-IsValid : (h : Sha256) (b : Text) → IsValid (digest_of h b)
unfolding digest_of
digest_of-IsValid h b =
    let (long, hex) = hex_encode_lem (h.sum b) (h.sum_bytes b) in
    IsValid-of (hex_encode (h.sum b)) (omega (arith, h.sum_length b)) hex

append_cancel : (xs ys zs : Text) → xs ++ ys ≡ xs ++ zs → ys ≡ zs
append_cancel [] ys zs h = h
append_cancel (x ∷ xs) ys zs h = append_cancel xs ys zs (ground arith)

-- What stands behind the root in the path of a blob.
blob_tail : Text → Text
blob_tail d = text "/" ++ join (take 2 d) (join (take 2 (drop 2 d)) d)

long_cases : (d : Text) → length d ≡ 64 → (a b c f : ℕ) × (rest : Text) × (d ≡ a ∷ b ∷ c ∷ f ∷ rest)
long_cases [] h = ground arith
long_cases (a ∷ []) h = ground arith
long_cases (a ∷ b ∷ []) h = ground arith
long_cases (a ∷ b ∷ c ∷ []) h = ground arith
long_cases (a ∷ b ∷ c ∷ f ∷ d) h = (a, b, c, f, d, refl)

heads_equal :
    (a b c f a' b' c' f' : ℕ) (ds es : Text)
    → blob_tail (a ∷ b ∷ c ∷ f ∷ ds) ≡ blob_tail (a' ∷ b' ∷ c' ∷ f' ∷ es)
    → a ∷ b ∷ c ∷ f ∷ ds ≡ a' ∷ b' ∷ c' ∷ f' ∷ es
unfolding blob_tail
heads_equal a b c f a' b' c' f' ds es h = ground arith

blob_tail-injective :
    (d e : Text) → length d ≡ 64 → length e ≡ 64 → blob_tail d ≡ blob_tail e → d ≡ e
blob_tail-injective d e h k same =
    let (a, b, c, f, ds, p) = long_cases d h in
    let (a', b', c', f', es, q) = long_cases e k in
    let both : blob_tail (a ∷ b ∷ c ∷ f ∷ ds) ≡ blob_tail (a' ∷ b' ∷ c' ∷ f' ∷ es) =
      sym (ap blob_tail p) ∙ same ∙ ap blob_tail q in
    p ∙ heads_equal a b c f a' b' c' f' ds es both ∙ sym q

temp_tail : Text → Text
temp_tail name = text "/" ++ join (text "tmp") name

blob_path-split : (root d : Text) → blob_path root d ≡ root ++ blob_tail d
unfolding blob_path blob_tail
blob_path-split root d = refl

temp_entry-split : (root name : Text) → temp_entry root name ≡ root ++ temp_tail name
unfolding temp_tail
temp_entry-split root name = refl

-- Two valid digests with the same path are equal.
pub blob_path-injective :
    (root d e : Text) → IsValid d → IsValid e → blob_path root d ≡ blob_path root e → d ≡ e
blob_path-injective root d e v w same =
    blob_tail-injective d e (valid_digest_lem d v).0 (valid_digest_lem e w).0 (
      append_cancel root (blob_tail d) (blob_tail e)
        (sym (blob_path-split root d) ∙ same ∙ blob_path-split root e))

blob_tail-temp : (d name : Text) → length d ≡ 64 → all_hex d ≡ true → blob_tail d ≢ temp_tail name
unfolding blob_tail temp_tail all_hex is_hex
blob_tail-temp d name h hex same =
    let (a, b, c, f, ds, p) = long_cases d h in
    let both : blob_tail (a ∷ b ∷ c ∷ f ∷ ds) ≡ temp_tail name = sym (ap blob_tail p) ∙ same in
    let first : all_hex (a ∷ b ∷ c ∷ f ∷ ds) ≡ true = ap all_hex (sym p) ∙ hex in
    let t : a ≡ 116 = ground (arith, both) in ground (arith, first, t)

-- The path of a blob is not that of a temporary file.
pub blob_path-temp : (root d name : Text) → IsValid d → blob_path root d ≢ temp_entry root name
blob_path-temp root d name v same =
    let (long, hex) = valid_digest_lem d v in
    blob_tail-temp d name long hex (
      append_cancel root (blob_tail d) (temp_tail name)
        (sym (blob_path-split root d) ∙ same ∙ temp_entry-split root name))

pub path_for_valid : (root d : Text) → IsValid d → path_for root d ≡ ok (blob_path root d)
unfolding path_for
path_for_valid root d v = rw (v, path_for)

pub path_for_invalid :
    (root d : Text) → valid_digest d ≡ some bad_digest → path_for root d ≡ err bad_digest
unfolding path_for
path_for_invalid root d v = rw (v, path_for)

pub valid_digest_cases :
    (d : Text)
    → ((valid_digest d ≡ some bad_digest) × ((length d ≡ 64) × (all_hex d ≡ true) → ⊥)) ⊎ IsValid d
unfolding valid_digest
valid_digest_cases d = ground arith

same_path : (root d e : Text) → IsValid d → path_for root e ≡ path_for root d → e ≡ d
same_path root d e v same = elim (valid_digest_cases e) [
  | inl (bad, _) ↦
      let clash : err bad_digest ≡ ok (blob_path root d) =
        sym (path_for_invalid root e bad) ∙ same ∙ path_for_valid root d v in
      cc
  | inr w ↦
      blob_path-injective root e d w v
        (ok-injective (sym (path_for_valid root e w) ∙ same ∙ path_for_valid root d v))
]

-- pathFor refuses a text as a bad digest unless it is 64 lower-case hexadecimal characters, so
-- with no dot or separator in it. Such a text it takes to its path under the root, no other text
-- to the same result, and the path is not one of a temporary upload.
pub path_for_outcome :
    (root d : Text)
    → ((path_for root d ≡ err bad_digest) × ((length d ≡ 64) × (all_hex d ≡ true) → ⊥))
      ⊎ ((length d ≡ 64)
          × (all_hex d ≡ true)
          × (path_for root d ≡ ok (blob_path root d))
          × ((e : Text) → path_for root e ≡ path_for root d → e ≡ d)
          × ((name : Text) → blob_path root d ≢ temp_entry root name))
path_for_outcome root d = elim (valid_digest_cases d) [
  | inl (bad, refused) ↦ inl (path_for_invalid root d bad, refused)
  | inr v ↦
      let (long, hex) = valid_digest_lem d v in
      inr (
        long,
        hex,
        path_for_valid root d v,
        λ e same. same_path root d e v same,
        λ name. blob_path-temp root d name v,
      )
]
