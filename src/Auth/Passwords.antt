-- ===== src/Auth/Passwords.antt =====
-- internal/auth/password.go: argon2id hashes in the PHC format. The libraries (argon2,
-- encoding/base64, the printing and scanning of numbers by fmt) are a record of parameters.
use manualbox.Prelude.{
  ℕ, ◌*◌, ◌<◌, ◌≡◌, min, max, Bool, true, false, ◌||◌, Option, none, some, List, [], ◌∷◌, ◌++◌,
  Result, ok, err, if◌then◌else◌, ltb, ◌==◌,
}
use manualbox.Prelude.Text.{Text, text, text_eq}
use manualbox.Prelude.Lists.{length, All}

abbrev pub argon_memory : ℕ
argon_memory = 19 * 1024

abbrev pub argon_time : ℕ
argon_time = 2

abbrev pub argon_key_len : ℕ
argon_key_len = 32

abbrev pub argon_salt_len : ℕ
argon_salt_len = 16

abbrev pub min_digest_len : ℕ
min_digest_len = 16

abbrev pub max_digest_len : ℕ
max_digest_len = 64

abbrev pub max_salt_len : ℕ
max_salt_len = 64

-- hashParams
pub record HashParams : Type 0 where
  pub memory : ℕ
  pub time : ℕ
  pub parallelism : ℕ

-- The errors of this file; every error of decodeHash is ErrInvalidHash.
pub data HashError : Type 0 where
  empty_password no_salt invalid_hash : HashError

-- argon2.Version
abbrev pub argon_version : ℕ
argon_version = 19

-- A byte other than "$"
abbrev pub IsField : Text → Type 0
IsField = All (λ b. (b == 36) ≡ false)

abbrev pub params_text : (ℕ → Text) → HashParams → Text
params_text digits p =
    text "m="
    ++ (digits p.memory ++ (text ",t=" ++ (digits p.time ++ (text ",p=" ++ digits p.parallelism))))

pub record Argon : Type 0 where
  -- argon2.IDKey: password, salt, time, memory, lanes, size
  pub id_key : Text → Text → ℕ → ℕ → ℕ → ℕ → Text
  pub id_key_size : (p s : Text) (t m l n : ℕ) → length (id_key p s t m l n) ≡ n
  -- base64.RawStdEncoding, whose alphabet has no "$"
  pub encode : Text → Text
  pub decode : Text → Option Text
  pub decode-encode : (b : Text) → decode (encode b) ≡ some b
  pub encode-IsField : (b : Text) → IsField (encode b)
  -- %d of a number
  pub digits : ℕ → Text
  pub digits-IsField : (n : ℕ) → IsField (digits n)
  -- Sscanf of "v=%d" and of "m=%d,t=%d,p=%d" into an int and into two uint32 and a uint8
  pub scan_version : Text → Option ℕ
  pub scan_version-digits : (n : ℕ) → n < 2147483648 → scan_version (text "v=" ++ digits n) ≡ some n
  pub scan_params : Text → Option HashParams
  pub scan_params-digits :
      (p : HashParams)
      → p.memory < 4294967296
      → p.time < 4294967296
      → p.parallelism < 256
      → scan_params (params_text digits p) ≡ some p

-- argonParallelism, for the number of processors
abbrev pub argon_parallelism : ℕ → ℕ
argon_parallelism cpus = min (max cpus 1) 4

abbrev pub current_params : ℕ → HashParams
current_params cpus = record {
  memory = argon_memory;
  time = argon_time;
  parallelism = argon_parallelism cpus;
}

abbrev pub derive : Argon → Text → Text → HashParams → ℕ → Text
derive g password salt p n = g.id_key password salt p.time p.memory p.parallelism n

-- The format of an encoded hash.
unfoldable pub encode_hash : Argon → HashParams → Text → Text → Text
encode_hash g p salt digest =
    36
    ∷ (text "argon2id"
        ++ 36
          ∷ (text "v="
              ++ g.digits argon_version
              ++ 36 ∷ (params_text g.digits p ++ 36 ∷ (g.encode salt ++ 36 ∷ g.encode digest))))

-- HashPassword, given the salt that rand.Read makes, if it does
unfoldable pub hash_password : Argon → ℕ → Option Text → Text → Result HashError Text
unfolding encode_hash
hash_password g cpus salt password = if text_eq password [] then err empty_password else elim salt [
  | none ↦ err no_salt
  | some s ↦
      let p = current_params cpus in ok (encode_hash g p s (derive g password s p argon_key_len))
]

-- strings.Split at a byte
abbrev pub before_first : ℕ → List Text → List Text
before_first b [] = (b ∷ []) ∷ []
before_first b (t ∷ ts) = (b ∷ t) ∷ ts

unfoldable pub split_at : ℕ → Text → List Text
split_at d [] = [] ∷ []
split_at d (b ∷ bs) = let rest = split_at d bs in if b == d then [] ∷ rest else before_first b rest

-- What decodeHash returns: parameters, salt, digest.
pub record Decoded : Type 0 where
  pub params : HashParams
  pub salt : Text
  pub digest : Text

abbrev pub is_out_of_range : Text → Text → Bool
is_out_of_range salt digest =
    (length salt == 0 || ltb max_salt_len (length salt))
    || (ltb (length digest) min_digest_len || ltb max_digest_len (length digest))

-- decodeHash, from the decoding of the salt on
unfoldable pub decode_tail : Argon → HashParams → Text → Text → Result HashError Decoded
decode_tail g p salt digest = elim (g.decode salt) [
  | none ↦ err invalid_hash
  | some s ↦ elim (g.decode digest) [
    | none ↦ err invalid_hash
    | some d ↦
        if is_out_of_range s d
        then err invalid_hash
        else ok (record { params = p; salt = s; digest = d })
  ]
]

-- decodeHash, from the scan of the parameters on
unfoldable pub decode_params : Argon → Text → Text → Text → Result HashError Decoded
unfolding decode_tail
decode_params g params salt digest = elim (g.scan_params params) [
  | none ↦ err invalid_hash
  | some p ↦
      if p.memory == 0 || (p.time == 0 || p.parallelism == 0)
      then err invalid_hash
      else decode_tail g p salt digest
]

-- decodeHash, with the six parts of the split
unfoldable pub decode_parts : Argon → List Text → Result HashError Decoded
unfolding decode_params
decode_parts g (blank ∷ name ∷ version ∷ params ∷ salt ∷ digest ∷ []) =
    if text_eq blank []
    then (if text_eq name (text "argon2id")
        then elim (g.scan_version version) [
          | none ↦ err invalid_hash
          | some v ↦
              if v == argon_version then decode_params g params salt digest else err invalid_hash
        ]
        else err invalid_hash)
    else err invalid_hash
decode_parts g parts = err invalid_hash

-- decodeHash
unfoldable pub decode_hash : Argon → Text → Result HashError Decoded
unfolding decode_parts split_at
decode_hash g encoded = decode_parts g (split_at 36 encoded)

-- VerifyPassword: whether the password matches, and whether the hash is stale.
unfoldable pub verify_password : Argon → Text → Text → Result HashError (Bool × Bool)
unfolding decode_hash
verify_password g encoded password = elim (decode_hash g encoded) [
  | err e ↦ err e
  | ok x ↦
      if text_eq (derive g password x.salt x.params (length x.digest)) x.digest
      then ok (true, ltb x.params.memory argon_memory || ltb x.params.time argon_time)
      else ok (false, false)
]
