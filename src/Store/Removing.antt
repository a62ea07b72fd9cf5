-- ===== src/Store/Removing.antt =====
-- Delete and CleanTemp of internal/store/store.go.
use mathlib.Core.Path.{subst}
use manualbox.Prelude.{
  ◌≡◌, ◌≢◌, refl, sym, ◌∙◌, true, false, Option, none, some, List, [], ◌∷◌, arith, err, Bool-cases,
  Option-cases, ◌⊎◌, inl, inr,
}
use manualbox.Prelude.Text.{Text, text, has_prefix}
use manualbox.Prelude.Lists.{All}
use manualbox.Store.{
  bad_digest, blob_not_found, blob_path, Fs, put_file, temp_entry, open_blob, delete, clean_entries,
  valid_digest,
}
use manualbox.Store.Paths.{
  IsValid, blob_path-injective, blob_path-temp, path_for_valid, path_for_invalid,
  valid_digest_cases,
}
use manualbox.Store.Integrity.{put_file_same, put_file_other}
use manualbox.Store.Reading.{open_absent}

-- Without a failure of the system, Delete refuses a text that is no digest; for a digest it
-- succeeds, whether or not the blob exists, after it the blob is not found, and every other blob is
-- what it was.
pub delete_outcome :
    (root d : Text) (fs : Fs)
    → ((valid_digest d ≡ some bad_digest) × (delete root none d fs ≡ (fs, some bad_digest)))
      ⊎ ((fs' : Fs) × (delete root none d fs ≡ (fs', none))
          × (open_blob root none d fs' ≡ err (blob_not_found d))
          × ((e : Text) → IsValid e → e ≢ d → fs' (blob_path root e) ≡ fs (blob_path root e)))
unfolding delete
delete_outcome root d fs = elim (valid_digest_cases d) [
  | inl (bad, _) ↦ inl (bad, rw (path_for_invalid root d bad, delete))
  | inr v ↦ inr (
    put_file (blob_path root d) none fs,
    rw (path_for_valid root d v, delete),
    open_absent root d (put_file (blob_path root d) none fs) v
        (put_file_same (blob_path root d) none fs),
    λ e w ne.
        put_file_other (blob_path root d) (blob_path root e) none fs
          (λ same. ne (blob_path-injective root e d w v same)),
  )
]

abbrev Entries : Type 0
Entries = List (Text × Option Text)

clean_absent :
    (root q : Text) (es : Entries) (fs : Fs) → fs q ≡ none → (clean_entries root es fs).0 q ≡ none
unfolding clean_entries
clean_absent root q [] fs h = h
clean_absent root q ((name, fault) ∷ es) fs h =
    elim (Bool-cases (has_prefix name (text "upload-"))) [
      | inr e ↦ rw e (clean_absent root q es fs h)
      | inl e ↦ elim (Option-cases fault) [
        | inr (m, e') ↦ rw (e, e') (clean_absent root q es fs h)
        | inl e' ↦
            rw (e, e')
              (clean_absent root q es (put_file (temp_entry root name) none fs) (ground arith))
      ]
    ]

clean_kept :
    (root d : Text) (es : Entries) (fs : Fs)
    → IsValid d
    → (clean_entries root es fs).0 (blob_path root d) ≡ fs (blob_path root d)
unfolding clean_entries
clean_kept root d [] fs v = refl
clean_kept root d ((name, fault) ∷ es) fs v = elim (Bool-cases (has_prefix name (text "upload-"))) [
  | inr e ↦ rw e (clean_kept root d es fs v)
  | inl e ↦ elim (Option-cases fault) [
    | inr (m, e') ↦ rw (e, e') (clean_kept root d es fs v)
    | inl e' ↦
        rw (e, e')
          (clean_kept root d es (put_file (temp_entry root name) none fs) v
            ∙ put_file_other (temp_entry root name) (blob_path root d) none fs
                (blob_path-temp root d name v))
  ]
]

-- An upload whose removal does not fail is gone.
abbrev pub IsGone : Text → Fs → Text × Option Text → Type 0
IsGone root fs e =
    has_prefix e.0 (text "upload-") ≡ true → e.1 ≡ none → fs (temp_entry root e.0) ≡ none

clean_skip :
    (root name : Text) (fault : Option Text) (es : Entries) (fs : Fs)
    → has_prefix name (text "upload-") ≡ false
    → (clean_entries root ((name, fault) ∷ es) fs).0 ≡ (clean_entries root es fs).0
unfolding clean_entries
clean_skip root name fault es fs e = rw e

clean_fail :
    (root name m : Text) (fault : Option Text) (es : Entries) (fs : Fs)
    → has_prefix name (text "upload-") ≡ true
    → fault ≡ some m
    → (clean_entries root ((name, fault) ∷ es) fs).0 ≡ (clean_entries root es fs).0
unfolding clean_entries
clean_fail root name m fault es fs e e' = rw (e, e')

clean_remove :
    (root name : Text) (fault : Option Text) (es : Entries) (fs : Fs)
    → has_prefix name (text "upload-") ≡ true
    → fault ≡ none
    → (clean_entries root ((name, fault) ∷ es) fs).0
      ≡ (clean_entries root es (put_file (temp_entry root name) none fs)).0
unfolding clean_entries
clean_remove root name fault es fs e e' = rw (e, e')

clean-IsGone :
    (root : Text) (es : Entries) (fs : Fs) → All (IsGone root (clean_entries root es fs).0) es
clean-IsGone root [] fs = tt
clean-IsGone root ((name, fault) ∷ es) fs = elim (Bool-cases (has_prefix name (text "upload-"))) [
  | inr e ↦
      subst (λ (g : Fs). All (IsGone root g) ((name, fault) ∷ es))
        (sym (clean_skip root name fault es fs e)) ((λ h _. ground arith), clean-IsGone root es fs)
  | inl e ↦ elim (Option-cases fault) [
    | inr (m, e') ↦
        subst (λ (g : Fs). All (IsGone root g) ((name, fault) ∷ es))
          (sym (clean_fail root name m fault es fs e e'))
          ((λ _ h. ground arith), clean-IsGone root es fs)
    | inl e' ↦
        subst (λ (g : Fs). All (IsGone root g) ((name, fault) ∷ es))
          (sym (clean_remove root name fault es fs e e'))
          (
            (λ _ _.
                clean_absent root (temp_entry root name) es
                  (put_file (temp_entry root name) none fs)
                  (put_file_same (temp_entry root name) none fs)),
            clean-IsGone root es (put_file (temp_entry root name) none fs),
          )
  ]
]

-- CleanTemp touches no blob, and of what it lists in the directory every upload whose removal does
-- not fail is gone, also after the failure of another.
pub clean_entries_outcome :
    (root : Text) (es : List (Text × Option Text)) (fs : Fs)
    → ((d : Text)
        → IsValid d
        → (clean_entries root es fs).0 (blob_path root d) ≡ fs (blob_path root d))
      × All (IsGone root (clean_entries root es fs).0) es
clean_entries_outcome root es fs = ((λ d v. clean_kept root d es fs v), clean-IsGone root es fs)
