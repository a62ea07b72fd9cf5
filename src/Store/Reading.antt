-- ===== src/Store/Reading.antt =====
-- ReadAll and Verify of internal/store/store.go, and an upload that nothing disturbs.
use manualbox.Prelude.{◌≡◌, ◌≢◌, refl, sym, ◌∙◌, true, false, none, some, ◌++◌, arith, ok, err}
use manualbox.Prelude.Text.{Text, text, text_eq_iff, text_eq_refl}
use manualbox.Prelude.Lists.{length}
use manualbox.Store.{
  Sha256, digest_of, blob_not_found, Ref, blob_path, File, Fs, put_file, look_up, open_blob,
  read_all, check_content, verify,
}
use manualbox.Store.Paths.{
  IsValid, digest_of-IsValid, blob_path-injective, blob_path-temp, path_for_valid,
}
use manualbox.Store.Putting.{
  PutCall, temp_path, rename, protect, after_rename, place, install, seal, upload, put,
}
use manualbox.Store.Integrity.{put_file_same, put_file_other}

-- A call of Put that nothing disturbs.
abbrev pub undisturbed : Text → PutCall
undisturbed n = record {
  random = n;
  create_fault = none;
  copy_fault = none;
  sync_fault = none;
  close_fault = none;
  stat_fails = false;
  mkdir_fault = none;
  meanwhile = λ g. g;
  rename_fault = none;
  stat_again_fails = false;
  chmod_fault = none;
  remove_fails = false;
}

open_found :
    (root d : Text) (f : File) (fs : Fs)
    → IsValid d
    → fs (blob_path root d) ≡ some f
    → open_blob root none d fs ≡ ok f
unfolding open_blob look_up
open_found root d f fs v e = rw (path_for_valid root d v, open_blob) (rw e)

pub open_absent :
    (root d : Text) (fs : Fs)
    → IsValid d
    → fs (blob_path root d) ≡ none
    → open_blob root none d fs ≡ err (blob_not_found d)
unfolding open_blob look_up
open_absent root d fs v e = rw (path_for_valid root d v, open_blob) (rw e)

-- The file system after the rename of an upload that places a new blob, and after all of it.
moved : Sha256 → Text → Text → Text → Fs → Fs
moved h root n bytes fs =
    put_file (blob_path root (digest_of h bytes))
      (some (record { content = bytes; read_only = false }))
      (put_file (temp_path root (undisturbed n)) none (upload root (undisturbed n) bytes fs))

placed : Sha256 → Text → Text → Text → Fs → Fs
placed h root n bytes fs =
    put_file (blob_path root (digest_of h bytes))
      (protect (moved h root n bytes fs (blob_path root (digest_of h bytes))))
      (moved h root n bytes fs)

moved-placed :
    (h : Sha256) (root n bytes : Text) (fs : Fs) (r : Ref)
    → after_rename (undisturbed n) r (blob_path root (digest_of h bytes)) (moved h root n bytes fs)
      ≡ (placed h root n bytes fs, ok r)
unfolding after_rename placed
moved-placed h root n bytes fs r = refl

put_places :
    (h : Sha256) (root n bytes : Text) (fs : Fs)
    → fs (blob_path root (digest_of h bytes)) ≡ none
    → put h root (undisturbed n) bytes fs
      ≡ (placed h root n bytes fs, ok (record { sha256 = digest_of h bytes; size = length bytes }))
unfolding put seal install place rename moved
put_places h root n bytes fs absent =
    let d : Text = digest_of h bytes in
    let v : IsValid d = digest_of-IsValid h bytes in
    let apart : upload root (undisturbed n) bytes fs (blob_path root d) ≡ none =
      put_file_other (temp_path root (undisturbed n)) (blob_path root d)
        (some (record { content = bytes; read_only = false })) fs
        (blob_path-temp root d (text "upload-" ++ n) v)
      ∙ absent in
    let up : upload root (undisturbed n) bytes fs (temp_path root (undisturbed n))
        ≡ some (record { content = bytes; read_only = false }) =
      put_file_same (temp_path root (undisturbed n))
        (some (record { content = bytes; read_only = false })) fs in
    rw (path_for_valid root d v, install)
      (rw apart (
        rw (up, place)
          (moved-placed h root n bytes fs (record { sha256 = d; size = length bytes }))))

placed_blob :
    (h : Sha256) (root n bytes : Text) (fs : Fs)
    → placed h root n bytes fs (blob_path root (digest_of h bytes))
      ≡ some (record { content = bytes; read_only = true })
unfolding placed moved
placed_blob h root n bytes fs = rw (text_eq_refl (blob_path root (digest_of h bytes)))

-- Apart from the new blob and the temporary file, every path has what it had.
placed_other :
    (h : Sha256) (root n bytes : Text) (fs : Fs) (q : Text)
    → q ≢ blob_path root (digest_of h bytes)
    → q ≢ temp_path root (undisturbed n)
    → placed h root n bytes fs q ≡ fs q
unfolding placed moved
placed_other h root n bytes fs q ne ne' = ground (
  arith,
  text_eq_iff q (blob_path root (digest_of h bytes)),
  text_eq_iff q (temp_path root (undisturbed n)),
)

temp_gone :
    (h : Sha256) (root n bytes : Text) (fs : Fs)
    → placed h root n bytes fs (temp_path root (undisturbed n)) ≡ none
unfolding placed moved
temp_gone h root n bytes fs =
    let apart : temp_path root (undisturbed n) ≢ blob_path root (digest_of h bytes) = λ same.
      blob_path-temp root (digest_of h bytes) (text "upload-" ++ n) (digest_of-IsValid h bytes)
        (sym same) in
    ground (
      arith,
      apart,
      text_eq_iff (temp_path root (undisturbed n)) (blob_path root (digest_of h bytes)),
      text_eq_refl (temp_path root (undisturbed n)),
    )

-- An upload of content under whose digest nothing is stored, which nothing disturbs, returns the
-- digest and the size of the bytes. Then ReadAll of that digest returns exactly those bytes,
-- Verify finds no fault, and the temporary file is gone; every other blob is what it was.
pub put-read_all :
    (h : Sha256) (root n bytes : Text) (fs : Fs)
    → fs (blob_path root (digest_of h bytes)) ≡ none
    → (fs' : Fs) × (put h root (undisturbed n) bytes fs
        ≡ (fs', ok (record { sha256 = digest_of h bytes; size = length bytes })))
      × (read_all root none none (digest_of h bytes) fs' ≡ ok bytes)
      × (verify h root none none (digest_of h bytes) fs' ≡ none)
      × (fs' (temp_path root (undisturbed n)) ≡ none)
      × ((d : Text)
          → IsValid d
          → d ≢ digest_of h bytes
          → fs' (blob_path root d) ≡ fs (blob_path root d))
unfolding read_all verify check_content
put-read_all h root n bytes fs absent =
    let d : Text = digest_of h bytes in
    let v : IsValid d = digest_of-IsValid h bytes in
    let fs' : Fs = placed h root n bytes fs in
    let opened : open_blob root none d fs' ≡ ok (record { content = bytes; read_only = true }) =
      open_found root d (record { content = bytes; read_only = true }) fs' v
        (placed_blob h root n bytes fs) in
    (
      fs',
      put_places h root n bytes fs absent,
      rw (opened, read_all),
      rw (opened, verify) (rw (text_eq_refl d)),
      temp_gone h root n bytes fs,
      λ e w ne.
          placed_other h root n bytes fs (blob_path root e)
            (λ same. ne (blob_path-injective root e d w v same))
            (blob_path-temp root e (text "upload-" ++ n) w),
    )
