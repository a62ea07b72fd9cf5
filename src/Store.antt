-- ===== src/Store.antt =====
-- internal/store/store.go: blobs named by the SHA-256 of their bytes. The file system is a function
-- from paths to files; directories are not modelled, except that making one can fail. Each system
-- call has an argument for its failure. The root is a clean absolute path other than "/".
pub mod Paths
pub mod Putting
pub mod Integrity
pub mod Uploads
pub mod Reading
pub mod Removing
use manualbox.Prelude.{
  ℕ, ◌+◌, ◌/◌, ◌%◌, ◌≡◌, ◌<◌, Bool, true, false, ◌&&◌, ◌||◌, not, Option, none, some, List, [], ◌∷◌,
  ◌++◌, Result, ok, err, if◌then◌else◌, ltb, leb, ◌==◌,
}
use manualbox.Prelude.Text.{Text, text, text_eq, has_prefix}
use manualbox.Prelude.Lists.{length, take, drop, All}

-- crypto/sha256: 32 bytes for every input.
pub record Sha256 : Type 0 where
  pub sum : Text → Text
  pub sum_length : (b : Text) → length (sum b) ≡ 32
  pub sum_bytes : (b : Text) → All (λ x. x < 256) (sum b)

-- hex.EncodeToString
unfoldable pub hex_digit : ℕ → ℕ
hex_digit n = if ltb n 10 then 48 + n else 87 + n

unfoldable pub hex_encode : Text → Text
unfolding hex_digit
hex_encode [] = []
hex_encode (b ∷ bs) = hex_digit (b / 16) ∷ hex_digit (b % 16) ∷ hex_encode bs

-- Digest
unfoldable pub digest_of : Sha256 → Text → Text
digest_of h b = hex_encode (h.sum b)

pub data StoreError : Type 0 where
  bad_digest : StoreError
  blob_not_found : Text → StoreError
  corrupt : Text → Text → StoreError
  system : Text → StoreError

-- Ref
pub record Ref : Type 0 where
  pub sha256 : Text
  pub size : ℕ

unfoldable pub is_hex : ℕ → Bool
is_hex c = (leb 48 c && leb c 57) || (leb 97 c && leb c 102)

unfoldable pub all_hex : Text → Bool
all_hex [] = true
all_hex (c ∷ cs) = is_hex c && all_hex cs

-- ValidDigest. Go's range stops at the first byte of each rune; one of more than a byte starts with
-- a byte that is not hex, so all bytes are tested.
unfoldable pub valid_digest : Text → Option StoreError
valid_digest d =
    if not (length d == 64) then some bad_digest else if all_hex d then none else some bad_digest

-- filepath.Join of clean parts
abbrev pub join : Text → Text → Text
join p q = p ++ (text "/" ++ q)

-- The path of a blob, below two levels of directories.
unfoldable pub blob_path : Text → Text → Text
blob_path root d = join root (join (take 2 d) (join (take 2 (drop 2 d)) d))

-- pathFor
unfoldable pub path_for : Text → Text → Result StoreError Text
unfolding blob_path
path_for root d = elim (valid_digest d) [ some e ↦ err e | none ↦ ok (blob_path root d) ]

pub record File : Type 0 where
  pub content : Text
  pub read_only : Bool

abbrev pub Fs : Type 0
Fs = Text → Option File

abbrev pub put_file : Text → Option File → Fs → Fs
put_file p f fs q = if text_eq q p then f else fs q

-- What os.Open or os.Stat says of a path: another error than that the file does not exist, or the
-- file. `d` is the digest that the error names.
unfoldable pub look_up : Option Text → Text → Option File → Result StoreError File
look_up (some m) d f = err (system m)
look_up none d none = err (blob_not_found d)
look_up none d (some f) = ok f

-- Open, and the opening of Stat
unfoldable pub open_blob : Text → Option Text → Text → Fs → Result StoreError File
unfolding look_up
open_blob root fault d fs = elim (path_for root d) [ err e ↦ err e | ok p ↦ look_up fault d (fs p) ]

-- ReadAll
unfoldable pub read_all : Text → Option Text → Option Text → Text → Fs → Result StoreError Text
read_all root fault read_fault d fs = elim (open_blob root fault d fs) [
  | err e ↦ err e
  | ok f ↦ elim read_fault [ some m ↦ err (system m) | none ↦ ok f.content ]
]

-- Stat
unfoldable pub stat : Text → Option Text → Text → Fs → Result StoreError Ref
stat root fault d fs = elim (open_blob root fault d fs) [
  | err e ↦ err e
  | ok f ↦ ok (record { sha256 = d; size = length f.content })
]

-- Exists
unfoldable pub exists : Text → Option Text → Text → Fs → Bool
exists root fault d fs = elim (stat root fault d fs) [ err e ↦ false | ok r ↦ true ]

-- Delete; os.Remove of an absent file is no error here.
unfoldable pub delete : Text → Option Text → Text → Fs → Fs × Option StoreError
delete root fault d fs = elim (path_for root d) [
  | err e ↦ (fs, some e)
  | ok p ↦ elim fault [ some m ↦ (fs, some (system m)) | none ↦ (put_file p none fs, none) ]
]

-- Verify
unfoldable pub check_content : Sha256 → Text → Text → Option StoreError
check_content h d b = if text_eq (digest_of h b) d then none else some (corrupt d (digest_of h b))

unfoldable pub verify : Sha256 → Text → Option Text → Option Text → Text → Fs → Option StoreError
unfolding check_content
verify h root fault read_fault d fs = elim (open_blob root fault d fs) [
  | err e ↦ some e
  | ok f ↦ elim read_fault [ some m ↦ some (system m) | none ↦ check_content h d f.content ]
]

-- The path of an entry of the directory tmp.
abbrev pub temp_entry : Text → Text → Text
temp_entry root name = join root (join (text "tmp") name)

-- CleanTemp, over what os.ReadDir returns: the names in the directory, each with the failure of its
-- removal if it fails. The errors are joined.
unfoldable pub clean_entries : Text → List (Text × Option Text) → Fs → Fs × List StoreError
clean_entries root [] fs = (fs, [])
clean_entries root ((name, fault) ∷ es) fs =
    if has_prefix name (text "upload-")
    then elim fault [
      | none ↦ clean_entries root es (put_file (temp_entry root name) none fs)
      | some m ↦ let (fs', errs) = clean_entries root es fs in (fs', system m ∷ errs)
    ]
    else clean_entries root es fs
