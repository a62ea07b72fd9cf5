-- ===== src/Tests/Stores.antt =====
-- The theorems on the blob store at small file systems, with a hash that only counts bytes.
use manualbox.Prelude.{
  ℕ, zero, suc, ◌%◌, ◌<◌, ◌≡◌, ◌≢◌, refl, true, Option, none, some, List, [], ◌∷◌, ok, arith,
}
use manualbox.Prelude.Text.{Text, text}
use manualbox.Prelude.Lists.{length, All}
use manualbox.Store.{Sha256, digest_of, blob_path, Fs, put_file, read_all, verify}
use manualbox.Store.Paths.{IsValid}
use manualbox.Store.Putting.{PutCall, temp_path, put}
use manualbox.Store.Integrity.{IsIntact, Stores}
use manualbox.Store.Uploads.{put-IsIntact}
use manualbox.Store.Reading.{undisturbed, put-read_all}

unfoldable pub copies : ℕ → ℕ → Text
copies zero b = []
copies (suc n) b = b ∷ copies n b

pub length-copies : (n b : ℕ) → length (copies n b) ≡ n
unfolding copies
length-copies zero b = refl
length-copies (suc n) b = omega (arith, length-copies n b)

pub All-copies : (n b : ℕ) → b < 256 → All (λ x. x < 256) (copies n b)
unfolding copies
All-copies zero b h = tt
All-copies (suc n) b h = (h, All-copies n b h)

abbrev pub counting : Sha256
counting = record {
  sum = λ b. copies 32 (length b % 256);
  sum_length = λ b. length-copies 32 (length b % 256);
  sum_bytes = λ b. All-copies 32 (length b % 256) (omega arith);
}

abbrev root : Text
root = text "/data"

abbrev bytes : Text
bytes = text "%PDF"

abbrev empty_fs : Fs
empty_fs q = none

empty_fs-IsIntact : IsIntact counting root empty_fs
empty_fs-IsIntact d v f e = cc

-- An upload whose rename fails.
abbrev refused_call : PutCall
refused_call = record (undisturbed (text "1")) { rename_fault = some (text "no space") }

put-IsIntact_example :
    Stores counting root (digest_of counting bytes) (put counting root refused_call bytes empty_fs)
put-IsIntact_example =
    put-IsIntact counting root refused_call bytes empty_fs (λ g w. w) (λ g. refl) empty_fs-IsIntact

put-read_all_example :
    (fs' : Fs) × (put counting root (undisturbed (text "1")) bytes empty_fs
      ≡ (fs', ok (record { sha256 = digest_of counting bytes; size = length bytes })))
    × (read_all root none none (digest_of counting bytes) fs' ≡ ok bytes)
    × (verify counting root none none (digest_of counting bytes) fs' ≡ none)
    × (fs' (temp_path root (undisturbed (text "1"))) ≡ none)
    × ((d : Text)
        → IsValid d
        → d ≢ digest_of counting bytes
        → fs' (blob_path root d) ≡ empty_fs (blob_path root d))
put-read_all_example = put-read_all counting root (text "1") bytes empty_fs refl

-- A file system on which one blob is corrupt.
abbrev rotten_fs : Fs
rotten_fs =
    put_file (blob_path root (digest_of counting bytes))
      (some (record { content = text "%PD"; read_only = true })) empty_fs

abbrev entries : List (Text × Option Text)
entries =
    (text "upload-1", some (text "busy")) ∷ (text "upload-2", none) ∷ (text "notes", none) ∷ []
