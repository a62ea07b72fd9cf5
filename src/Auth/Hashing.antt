-- ===== src/Auth/Hashing.antt =====
-- VerifyPassword of internal/auth/password.go on the hashes that HashPassword makes.
use manualbox.Prelude.{
  ℕ, ◌<◌, ◌≡◌, refl, ap, ◌∙◌, false, ◌||◌, some, List, [], ◌∷◌, ◌++◌, ok, ltb, ◌==◌, arith,
  Bool-cases, inl, inr,
}
use manualbox.Prelude.Text.{Text, text, text_eq}
use manualbox.Prelude.Lists.{length, All, All-append}
use manualbox.Auth.Passwords.{
  argon_memory, argon_time, argon_key_len, argon_salt_len, HashParams, argon_version, IsField,
  params_text, Argon, current_params, derive, encode_hash, hash_password, split_at, Decoded,
  is_out_of_range, decode_tail, decode_params, decode_parts, decode_hash, verify_password,
}

-- A text without the separator is one part.
pub split_at_whole : (d : ℕ) (t : Text) → All (λ b. (b == d) ≡ false) t → split_at d t ≡ t ∷ []
unfolding split_at
split_at_whole d [] h = refl
split_at_whole d (b ∷ bs) h = rw (h.0, split_at) (rw (split_at_whole d bs h.1) refl)

-- A field before a separator is the first part.
split_at-field : (t rest : Text) → IsField t → split_at 36 (t ++ 36 ∷ rest) ≡ t ∷ split_at 36 rest
unfolding split_at
split_at-field [] rest h = refl
split_at-field (b ∷ bs) rest h = rw (h.0, split_at) (rw (split_at-field bs rest h.1) refl)

module _ (g : Argon) where
  params_text-IsField : (p : HashParams) → IsField (params_text g.digits p)
  params_text-IsField p =
      let is_field : ℕ → Type 0 = λ b. (b == 36) ≡ false in
      let lanes : IsField (text ",p=" ++ g.digits p.parallelism) =
        (refl, (refl, (refl, g.digits-IsField p.parallelism))) in
      let times : IsField
          (text ",t=" ++ (g.digits p.time ++ (text ",p=" ++ g.digits p.parallelism))) =
        (
          refl,
          (
            refl,
            (
              refl,
              All-append is_field (g.digits p.time) (text ",p=" ++ g.digits p.parallelism)
                  (g.digits-IsField p.time) lanes,
            ),
          ),
        ) in
      (
        refl,
        (
          refl,
          All-append is_field (g.digits p.memory)
              (text ",t=" ++ (g.digits p.time ++ (text ",p=" ++ g.digits p.parallelism)))
              (g.digits-IsField p.memory) times,
        ),
      )

  -- The six parts of an encoded hash.
  split_at-encode_hash :
      (p : HashParams) (salt digest : Text)
      → split_at 36 (encode_hash g p salt digest)
        ≡ []
          ∷ text "argon2id"
          ∷ (text "v=" ++ g.digits argon_version)
          ∷ params_text g.digits p
          ∷ g.encode salt
          ∷ g.encode digest
          ∷ []
  split_at-encode_hash p salt digest =
      let e4 =
        split_at-field (g.encode salt) (g.encode digest) (g.encode-IsField salt)
        ∙ ap (λ (x : List Text). g.encode salt ∷ x)
            (split_at_whole 36 (g.encode digest) (g.encode-IsField digest)) in
      let r4 = g.encode salt ++ 36 ∷ g.encode digest in
      let e3 =
        split_at-field (params_text g.digits p) r4 (params_text-IsField p)
        ∙ ap (λ (x : List Text). params_text g.digits p ∷ x) e4 in
      let r3 = params_text g.digits p ++ 36 ∷ r4 in
      let v = text "v=" ++ g.digits argon_version in
      let e2 =
        split_at-field v r3 (refl, (refl, g.digits-IsField argon_version))
        ∙ ap (λ (x : List Text). v ∷ x) e3 in
      let r2 = v ++ 36 ∷ r3 in
      let e1 =
        split_at-field (text "argon2id") r2
          (refl, (refl, (refl, (refl, (refl, (refl, (refl, (refl, tt))))))))
        ∙ ap (λ (x : List Text). text "argon2id" ∷ x) e2 in
      let r1 = text "argon2id" ++ 36 ∷ r2 in
      unfold encode_hash in (split_at-field [] r1 tt ∙ ap (λ (x : List Text). [] ∷ x) e1)

  decode_tail-encode :
      (p : HashParams) (salt digest : Text)
      → is_out_of_range salt digest ≡ false
      → decode_tail g p (g.encode salt) (g.encode digest)
        ≡ ok (record { params = p; salt = salt; digest = digest })
  unfolding decode_tail
  decode_tail-encode p salt digest r =
      rw (g.decode-encode salt, decode_tail) (rw (g.decode-encode digest) (rw r refl))

  -- decodeHash reads back what is encoded: parameters in range, a salt of 1 to 64 bytes and a digest
  -- of 16 to 64.
  pub decode_hash-encode_hash :
      (p : HashParams) (salt digest : Text)
      → (0 < p.memory) × (p.memory < 4294967296)
      → (0 < p.time) × (p.time < 4294967296)
      → (0 < p.parallelism) × (p.parallelism < 256)
      → is_out_of_range salt digest ≡ false
      → decode_hash g (encode_hash g p salt digest)
        ≡ ok (record { params = p; salt = salt; digest = digest })
  unfolding decode_hash decode_parts text_eq decode_params
  decode_hash-encode_hash p salt digest (m, m') (t, t') (l, l') r =
      let nonzero : (p.memory == 0 || (p.time == 0 || p.parallelism == 0)) ≡ false = ground arith in
      rw (split_at-encode_hash p salt digest, decode_hash)
        (rw (g.scan_version-digits argon_version (omega arith), decode_parts)
          (rw (g.scan_params-digits p m' t' l', decode_params)
            (rw nonzero (decode_tail-encode p salt digest r))))

  -- VerifyPassword, given what decodeHash reads with parameters that are not stale.
  verify_password_of :
      (hash other : Text) (x : Decoded) (n : ℕ)
      → decode_hash g hash ≡ ok x
      → length x.digest ≡ n
      → (ltb x.params.memory argon_memory || ltb x.params.time argon_time) ≡ false
      → verify_password g hash other
        ≡ ok (text_eq (derive g other x.salt x.params n) x.digest, false)
  unfolding verify_password
  verify_password_of hash other x n read size fresh =
      let same = ap (derive g other x.salt x.params) size in
      elim (Bool-cases (text_eq (derive g other x.salt x.params n) x.digest)) [
        | inl q ↦
            let q' = ap (λ (t : Text). text_eq t x.digest) same ∙ q in
            rw (read, verify_password) (rw (q', q) (rw fresh refl))
        | inr q ↦
            let q' = ap (λ (t : Text). text_eq t x.digest) same ∙ q in
            rw (read, verify_password) (rw (q', q) refl)
      ]

  -- VerifyPassword on a hash that HashPassword made of a password with a salt of 16 bytes: another
  -- password is accepted exactly when argon2 derives the same digest of it, and the hash is not
  -- stale.
  pub verify_password-hash_password :
      (cpus : ℕ) (salt password other hash : Text)
      → length salt ≡ argon_salt_len
      → hash_password g cpus (some salt) password ≡ ok hash
      → verify_password g hash other
        ≡ ok (
          text_eq
              (derive g other salt (current_params cpus) argon_key_len)
              (derive g password salt (current_params cpus) argon_key_len),
          false,
        )
  verify_password-hash_password cpus salt password other hash e h =
      let p = current_params cpus in
      let digest = derive g password salt p argon_key_len in
      let made : hash ≡ encode_hash g p salt digest = unfold hash_password in ground arith in
      let size : length digest ≡ 32 =
        g.id_key_size password salt p.time p.memory p.parallelism 32 in
      let fits : is_out_of_range salt digest ≡ false = ground arith in
      let read : decode_hash g hash ≡ ok (record { params = p; salt = salt; digest = digest }) =
        ap (decode_hash g) made
        ∙ decode_hash-encode_hash p salt digest (omega arith, omega arith)
            (omega arith, omega arith) (omega arith, omega arith) fits in
      verify_password_of hash other (record { params = p; salt = salt; digest = digest })
        argon_key_len read size refl
