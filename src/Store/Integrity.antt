-- ===== src/Store/Integrity.antt =====
-- The integrity of the blob store of internal/store/store.go, and single changes of files.
use manualbox.Prelude.{
  ◌≡◌, ◌≢◌, refl, sym, ap, ◌∙◌, true, false, Option, none, some, ◌++◌, arith, Result, ok, err,
  Bool-cases, Option-cases, ◌⊎◌, inl, inr,
}
use manualbox.Prelude.Text.{Text, text, text_eq, text_eq_iff, text_eq_refl}
use manualbox.Store.{Sha256, digest_of, StoreError, Ref, blob_path, File, Fs, put_file, temp_entry}
use manualbox.Store.Paths.{IsValid, blob_path-injective, blob_path-temp}
use manualbox.Store.Putting.{PutCall, temp_path, discard, is_there}

-- Every file under the path of a digest has that digest.
abbrev pub IsIntact : Sha256 → Text → Fs → Type 0
IsIntact h root fs =
    (d : Text) → IsValid d → (f : File) → fs (blob_path root d) ≡ some f → digest_of h f.content ≡ d

pub put_file_same : (p : Text) (f : Option File) (fs : Fs) → put_file p f fs p ≡ f
put_file_same p f fs = rw (text_eq_refl p)

pub put_file_other : (p q : Text) (f : Option File) (fs : Fs) → q ≢ p → put_file p f fs q ≡ fs q
put_file_other p q f fs ne = ground (arith, text_eq_iff q p)

module _ (h : Sha256) (root : Text) where
  pub put_temp-IsIntact :
      (n : Text) (f : Option File) (fs : Fs)
      → IsIntact h root fs
      → IsIntact h root (put_file (temp_entry root n) f fs)
  put_temp-IsIntact n f fs w d v g e = w d v g (
      sym (put_file_other (temp_entry root n) (blob_path root d) f fs (blob_path-temp root d n v))
      ∙ e)

  pub put_blob-IsIntact :
      (d : Text) (f : Option File) (fs : Fs)
      → IsValid d
      → ((g : File) → f ≡ some g → digest_of h g.content ≡ d)
      → IsIntact h root fs
      → IsIntact h root (put_file (blob_path root d) f fs)
  put_blob-IsIntact d f fs v good w e v' g found =
      elim (Bool-cases (text_eq (blob_path root e) (blob_path root d))) [
        | inl same ↦
            let paths : blob_path root e ≡ blob_path root d =
              (text_eq_iff (blob_path root e) (blob_path root d)).0 same in
            let names : e ≡ d = blob_path-injective root e d v' v paths in
            let here : f ≡ some g = ground (arith, found) in good g here ∙ sym names
        | inr apart ↦ w e v' g (ground (arith, found))
      ]

  discard-IsIntact :
      (c : PutCall) (fs : Fs) → IsIntact h root fs → IsIntact h root (discard root c fs)
  unfolding discard
  discard-IsIntact c fs w = elim (Bool-cases c.remove_fails) [
    | inl e ↦ rw e w
    | inr e ↦ rw e (put_temp-IsIntact (text "upload-" ++ c.random) none fs w)
  ]

  -- What is left of a call that stores content with the digest `d`: an intact store, and an error
  -- or a file under the digest.
  abbrev pub Stores : Text → Fs × Result StoreError Ref → Type 0
  Stores d out =
      IsIntact h root out.0
      × (((e : StoreError) × (out.1 ≡ err e))
          ⊎ ((r : Ref) × (out.1 ≡ ok r)
              × (r.sha256 ≡ d)
              × (f : File) × (out.0 (blob_path root d) ≡ some f)))

  discard_blob :
      (c : PutCall) (d : Text) (fs : Fs)
      → IsValid d
      → discard root c fs (blob_path root d) ≡ fs (blob_path root d)
  unfolding discard
  discard_blob c d fs v = elim (Bool-cases c.remove_fails) [
    | inl e ↦ rw e
    | inr e ↦ rw e (
        put_file_other (temp_path root c) (blob_path root d) none fs
          (blob_path-temp root d (text "upload-" ++ c.random) v))
  ]

  pub failed-Stores :
      (c : PutCall) (d : Text) (e : StoreError) (fs : Fs)
      → IsIntact h root fs
      → Stores d (discard root c fs, err e)
  failed-Stores c d e fs w = (discard-IsIntact c fs w, inl (e, refl))

  pub kept-Stores :
      (c : PutCall) (r : Ref) (fs : Fs)
      → IsValid r.sha256
      → is_there (fs (blob_path root r.sha256)) ≡ true
      → IsIntact h root fs
      → Stores r.sha256 (discard root c fs, ok r)
  kept-Stores c r fs v there w = elim (Option-cases (fs (blob_path root r.sha256))) [
    | inl gone ↦ let lost : false ≡ true = ap is_there (sym gone) ∙ there in cc
    | inr (f, e) ↦
        (discard-IsIntact c fs w, inr (r, refl, refl, f, discard_blob c r.sha256 fs v ∙ e))
  ]
