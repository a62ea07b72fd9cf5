-- ===== src/Store/Uploads.antt =====
-- Put of internal/store/store.go against the integrity of the store.
use manualbox.Prelude.{
  ◌≡◌, refl, sym, ap, ◌∙◌, true, false, ◌&&◌, not, Option, none, some, ◌++◌, arith, ok, err,
  Bool-cases, Option-cases, ◌⊎◌, inl, inr,
}
use manualbox.Prelude.Text.{Text, text}
use manualbox.Prelude.Lists.{length, take}
use manualbox.Store.{Sha256, digest_of, StoreError, system, Ref, blob_path, File, Fs, put_file}
use manualbox.Store.Paths.{IsValid, digest_of-IsValid, path_for_valid}
use manualbox.Store.Putting.{
  PutCall, temp_path, discard, is_there, rename, protect, after_rename, place, install, seal,
  upload, put,
}
use manualbox.Store.Integrity.{
  IsIntact, put_file_same, put_temp-IsIntact, put_blob-IsIntact, Stores, failed-Stores, kept-Stores,
}

content_of : (f g : File) → ◌≡◌ {A = Option File} (some f) (some g) → g.content ≡ f.content
content_of f g e = ground arith

module _ (h : Sha256) (root : Text) where
  after_rename-Stores :
      (c : PutCall) (r : Ref) (f : File) (fs : Fs)
      → IsValid r.sha256
      → fs (blob_path root r.sha256) ≡ some f
      → IsIntact h root fs
      → Stores h root r.sha256 (after_rename c r (blob_path root r.sha256) fs)
  unfolding after_rename
  after_rename-Stores c r f fs v there w = elim (Option-cases c.chmod_fault) [
    | inr (m, e) ↦ rw e (w, inl (system m, refl))
    | inl e ↦
        let final : Text = blob_path root r.sha256 in
        let kept : protect (fs final) ≡ some (record f { read_only = true }) = ap protect there in
        rw e (
          put_blob-IsIntact h root r.sha256 (protect (fs final)) fs v
              (λ g same.
                ap (digest_of h) (content_of (record f { read_only = true }) g (sym kept ∙ same))
                ∙ w r.sha256 v f there)
              w,
          inr (
            r,
            refl,
            refl,
            record f { read_only = true },
            put_file_same final (protect (fs final)) fs ∙ kept,
          ),
        )
  ]

  rename_cases :
      (fault : Option Text) (p q : Text) (f : File) (fs : Fs)
      → fs p ≡ some f
      → ((e : StoreError) × (rename fault p q fs ≡ err e))
        ⊎ (rename fault p q fs ≡ ok (put_file q (some f) (put_file p none fs)))
  unfolding rename
  rename_cases fault p q f fs e = ground arith

  place-Stores :
      (c : PutCall) (r : Ref) (f : File) (fs : Fs)
      → IsValid r.sha256
      → fs (temp_path root c) ≡ some f
      → digest_of h f.content ≡ r.sha256
      → IsIntact h root fs
      → Stores h root r.sha256 (place root c r (blob_path root r.sha256) fs)
  unfolding place
  place-Stores c r f fs v up same w =
      let final : Text = blob_path root r.sha256 in
      elim (rename_cases c.rename_fault (temp_path root c) final f fs up) [
        | inr e ↦
            rw (e, place)
              (after_rename-Stores c r f
                (put_file final (some f) (put_file (temp_path root c) none fs)) v
                (put_file_same final (some f) (put_file (temp_path root c) none fs))
                (put_blob-IsIntact h root r.sha256 (some f) (put_file (temp_path root c) none fs) v
                  (λ g here. ap (digest_of h) (content_of f g here) ∙ same)
                  (put_temp-IsIntact h root (text "upload-" ++ c.random) none fs w)))
        | inl (x, e) ↦ elim (Bool-cases (is_there (fs final) && not c.stat_again_fails)) [
          | inl there ↦ rw (e, place) (rw there (kept-Stores h root c r fs v (ground arith) w))
          | inr gone ↦ rw (e, place) (rw gone (failed-Stores h root c r.sha256 x fs w))
        ]
      ]

  install-Stores :
      (c : PutCall) (r : Ref) (f : File) (fs : Fs)
      → IsValid r.sha256
      → fs (temp_path root c) ≡ some f
      → digest_of h f.content ≡ r.sha256
      → ((g : Fs) → IsIntact h root g → IsIntact h root (c.meanwhile g))
      → ((g : Fs) → c.meanwhile g (temp_path root c) ≡ g (temp_path root c))
      → IsIntact h root fs
      → Stores h root r.sha256 (install root c r fs)
  unfolding install
  install-Stores c r f fs v up same others mine w =
      let final : Text = blob_path root r.sha256 in
      elim (Bool-cases (is_there (fs final) && not c.stat_fails)) [
        | inl there ↦
            rw (path_for_valid root r.sha256 v, install)
              (rw there (kept-Stores h root c r fs v (ground arith) w))
        | inr gone ↦ elim (Option-cases c.mkdir_fault) [
          | inr (m, e) ↦
              rw (path_for_valid root r.sha256 v, install)
                (rw gone (rw e (failed-Stores h root c r.sha256 (system m) fs w)))
          | inl e ↦
              rw (path_for_valid root r.sha256 v, install)
                (rw gone
                  (rw e (place-Stores c r f (c.meanwhile fs) v (mine fs ∙ up) same (others fs w))))
        ]
      ]

  seal-Stores :
      (c : PutCall) (bytes : Text) (fs : Fs)
      → fs (temp_path root c) ≡ some (record { content = bytes; read_only = false })
      → ((g : Fs) → IsIntact h root g → IsIntact h root (c.meanwhile g))
      → ((g : Fs) → c.meanwhile g (temp_path root c) ≡ g (temp_path root c))
      → IsIntact h root fs
      → Stores h root (digest_of h bytes) (seal h root c bytes fs)
  unfolding seal discard
  seal-Stores c bytes fs up others mine w = elim (Option-cases c.sync_fault) [
    | inr (m, e) ↦ rw e (failed-Stores h root c (digest_of h bytes) (system m) fs w)
    | inl e ↦ elim (Option-cases c.close_fault) [
      | inr (m, e') ↦ rw (e, e') (failed-Stores h root c (digest_of h bytes) (system m) fs w)
      | inl e' ↦
          rw (e, e')
            (install-Stores c (record { sha256 = digest_of h bytes; size = length bytes })
              (record { content = bytes; read_only = false }) fs (digest_of-IsValid h bytes) up refl
              others mine w)
    ]
  ]

-- On a store that is intact, in which no file stands under a digest that is not its own: whichever
-- system calls fail, and whatever other processes do meanwhile that keeps the store intact and
-- leaves this upload's temporary file alone, Put keeps the store intact. If Put returns a
-- reference, it names the digest of the bytes uploaded, and a file stands under it; else it
-- returns an error.
pub put-IsIntact :
    (h : Sha256) (root : Text) (c : PutCall) (bytes : Text) (fs : Fs)
    → ((g : Fs) → IsIntact h root g → IsIntact h root (c.meanwhile g))
    → ((g : Fs) → c.meanwhile g (temp_path root c) ≡ g (temp_path root c))
    → IsIntact h root fs
    → Stores h root (digest_of h bytes) (put h root c bytes fs)
unfolding put discard
put-IsIntact h root c bytes fs others mine w = elim (Option-cases c.create_fault) [
  | inr (m, e) ↦ rw e (w, inl (system m, refl))
  | inl e ↦ elim (Option-cases c.copy_fault) [
    | inr ((n, m), e') ↦
        rw (e, e')
          (failed-Stores h root c (digest_of h bytes) (system m) (upload root c (take n bytes) fs)
            (put_temp-IsIntact h root (text "upload-" ++ c.random) _ fs w))
    | inl e' ↦
        rw (e, e')
          (seal-Stores h root c bytes (upload root c bytes fs)
            (put_file_same (temp_path root c) _ fs) others mine
            (put_temp-IsIntact h root (text "upload-" ++ c.random) _ fs w))
  ]
]
