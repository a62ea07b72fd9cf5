-- ===== src/Tests/Codecs.antt =====
-- Concrete libraries for the tests of the keyring: a cipher that puts the key before the text, a key
-- derivation that cuts or fills the secret, and a file format that stores each length.
use manualbox.Prelude.{
  ℕ, zero, suc, ◌≡◌, refl, sym, ap, ◌∙◌, Bool, true, Option, none, some, List, [], ◌∷◌, ◌++◌, ok,
  ok-injective, if◌then◌else◌, ◌==◌,
}
use mathlib.Core.List.{append_assoc}
use manualbox.Prelude.Int.{ℤ, pos, negsuc}
use manualbox.Prelude.Text.{Text, text, text_eq, text_eq_refl}
use manualbox.Prelude.Lists.{length, take, drop, take-append, drop-append}
use manualbox.Keyring.{Wrap, KeyFile, Crypto}

-- A text of a given size.
abbrev pub fit : ℕ → Text → Text
fit zero t = []
fit (suc n) [] = 0 ∷ fit n []
fit (suc n) (b ∷ bs) = b ∷ fit n bs

pub length-fit : (n : ℕ) (t : Text) → length (fit n t) ≡ n
length-fit zero t = refl
length-fit (suc n) [] = ap suc (length-fit n [])
length-fit (suc n) (b ∷ bs) = ap suc (length-fit n bs)

abbrev is_key : Text → Bool
is_key k = length k == 32

abbrev unseal : Text → Text → Option Text
unseal k s = if text_eq (take (length k) s) k then some (drop (length k) s) else none

pub unseal-seal : (k p : Text) → unseal k (k ++ p) ≡ some p
unseal-seal k p = rw (take-append k p) (rw (text_eq_refl k) (ap some (drop-append k p)))

pub is_key_of_size : (k : Text) → length k ≡ 32 → is_key k ≡ true
is_key_of_size k e = rw e refl

-- A text with its length, before the rest.
abbrev put_text : Text → Text → Text
put_text t rest = length t ∷ (t ++ rest)

abbrev get_text : Text → Text × Text
get_text [] = ([], [])
get_text (n ∷ bs) = (take n bs, drop n bs)

get-put_text : (t rest : Text) → get_text (put_text t rest) ≡ (t, rest)
get-put_text t rest = rw (take-append t rest) (rw (drop-append t rest) refl)

abbrev get_number : Text → ℕ × Text
get_number [] = (0, [])
get_number (n ∷ bs) = (n, bs)

abbrev put_wrap : Wrap → Text → Text
put_wrap w rest =
    w.kdf_memory
    ∷ w.kdf_time
    ∷ w.kdf_threads
    ∷ put_text w.id (
        put_text w.kind
          (put_text w.label (put_text w.created_at (put_text w.salt (put_text w.ciphertext rest)))))

abbrev get_wrap : Text → Wrap × Text
get_wrap b0 =
    let (memory, b1) = get_number b0 in
    let (time, b2) = get_number b1 in
    let (threads, b3) = get_number b2 in
    let (id, b4) = get_text b3 in
    let (kind, b5) = get_text b4 in
    let (label, b6) = get_text b5 in
    let (created_at, b7) = get_text b6 in
    let (salt, b8) = get_text b7 in
    let (ciphertext, b9) = get_text b8 in
    (
      record {
        id = id;
        kind = kind;
        label = label;
        created_at = created_at;
        salt = salt;
        kdf_memory = memory;
        kdf_time = time;
        kdf_threads = threads;
        ciphertext = ciphertext;
      },
      b9,
    )

get-put_wrap : (w : Wrap) (rest : Text) → get_wrap (put_wrap w rest) ≡ (w, rest)
get-put_wrap w rest = simp (take-append, drop-append)

abbrev put_wraps : List Wrap → Text → Text
put_wraps [] rest = rest
put_wraps (w ∷ ws) rest = put_wrap w (put_wraps ws rest)

abbrev get_wraps : ℕ → Text → List Wrap
get_wraps zero b = []
get_wraps (suc n) b = let (w, rest) = get_wrap b in w ∷ get_wraps n rest

get-put_wraps : (ws : List Wrap) (rest : Text) → get_wraps (length ws) (put_wraps ws rest) ≡ ws
get-put_wraps [] rest = refl
get-put_wraps (w ∷ ws) rest =
    ap (λ (x : Wrap × Text). x.0 ∷ get_wraps (length ws) x.1) (get-put_wrap w (put_wraps ws rest))
    ∙ ap (λ (x : List Wrap). w ∷ x) (get-put_wraps ws rest)

put_wrap-append : (w : Wrap) (r s : Text) → put_wrap w r ++ s ≡ put_wrap w (r ++ s)
put_wrap-append w r s = simp append_assoc

put_wraps-append : (ws : List Wrap) (r s : Text) → put_wraps ws r ++ s ≡ put_wraps ws (r ++ s)
put_wraps-append [] r s = refl
put_wraps-append (w ∷ ws) r s =
    put_wrap-append w (put_wraps ws r) s ∙ ap (put_wrap w) (put_wraps-append ws r s)

abbrev put_version : ℤ → Text → Text
put_version (pos n) rest = 0 ∷ n ∷ rest
put_version (negsuc n) rest = 1 ∷ n ∷ rest

abbrev get_version : Text → ℤ
get_version (zero ∷ n ∷ b) = pos n
get_version (suc m ∷ n ∷ b) = negsuc n
get_version [] = pos 0
get_version (m ∷ []) = pos 0

abbrev put_file : KeyFile → Text
put_file f = put_version f.version (length f.wraps ∷ put_wraps f.wraps [])

abbrev get_file : Text → Option KeyFile
get_file b =
    let (count, rest) = get_number (drop 2 b) in
    some (record { version = get_version b; wraps = get_wraps count rest })

pub get_file-append :
    (v : ℤ) (ws : List Wrap)
    → get_file (put_file (record { version = v; wraps = ws }) ++ text "\n")
      ≡ some (record { version = v; wraps = ws })
get_file-append (pos n) ws =
    ap (λ (x : List Wrap). some (record { version = pos n; wraps = x }))
      (ap (get_wraps (length ws)) (put_wraps-append ws [] (text "\n"))
        ∙ get-put_wraps ws (text "\n"))
get_file-append (negsuc n) ws =
    ap (λ (x : List Wrap). some (record { version = negsuc n; wraps = x }))
      (ap (get_wraps (length ws)) (put_wraps-append ws [] (text "\n"))
        ∙ get-put_wraps ws (text "\n"))

abbrev pub boxes : Crypto
boxes = record {
  is_aes_key = is_key;
  is_aes_key_of_size = λ k e. is_key_of_size k e;
  seal = λ k n p. k ++ p;
  unseal = λ k n s. unseal k s;
  unseal-seal = λ k n p e h. unseal-seal k p;
  hkdf = λ s info n. ok (fit n s);
  hkdf_size = λ s info k n e. sym (ap length (ok-injective e)) ∙ length-fit n s;
  id_key = λ p s t m h n. fit n p;
  id_key_size = λ p s t m h n. length-fit n p;
  hmac = λ k m. k ++ m;
  encode_std = λ b. b;
  decode_raw_std = λ b. some b;
  decode-encode_std = λ b. refl;
  encode_url = λ b. b;
  decode_raw_url = λ b. some b;
  decode-encode_url = λ b. refl;
  decode_std = λ b. some b;
  is_utf8 = λ f. true;
  marshal = put_file;
  unmarshal = get_file;
  unmarshal-marshal = λ f e. get_file-append f.version f.wraps;
}
