-- ===== src/Frontend.antt =====
-- internal/frontend/frontend.go: which answer a path outside the API gets from the embedded single-page
-- application. path.Clean and Ext and the embedded files are parameters; http.FileServer, which
-- serves a path that is there, is a library call, so its answer is named and not opened.
use manualbox.Prelude.{
  ◌≡◌, ◌≢◌, ◌↔◌, refl, sym, Bool, true, false, not, ◌&&◌, Option, none, some, [], ◌∷◌,
  if◌then◌else◌, ◌==◌, ◌⊎◌, inl, inr, Bool-cases, arith,
}
use manualbox.Prelude.Text.{Text, text, text_eq, text_eq_iff, has_prefix}

-- path.Clean and path.Ext
pub record Paths : Type 0 where
  pub clean : Text → Text
  pub ext : Text → Text

-- dist/app: whether fs.Stat finds a path, and what fs.ReadFile reads.
pub record Files : Type 0 where
  pub stat : Text → Bool
  pub read : Text → Option Text

-- What the handlers write: the page that says there is no build, http.NotFound, the answer of the
-- file server with its Cache-Control, index.html, or the error for a build without it.
pub data Page : Type 0 where
  not_built : Page
  not_found : Page
  file_server : Text → Text → Page
  index_page : Text → Page
  index_missing : Page

abbrev pub index_html : Text
index_html = text "index.html"

abbrev pub no_cache : Text
no_cache = text "no-cache"

abbrev pub immutable : Text
immutable = text "public, max-age=31536000, immutable"

-- FS; `none` where dist/app is absent
unfoldable pub built_files : Option Files → Option Files
built_files none = none
built_files (some f) = if f.stat index_html then some f else none

-- strings.TrimPrefix of "/"
abbrev trim_slash : Text → Text
trim_slash [] = []
trim_slash (b ∷ bs) = if b == 47 then bs else b ∷ bs

-- upath
unfoldable pub page_path : Paths → Text → Text
page_path p url =
    let path = trim_slash (p.clean (47 ∷ url)) in if text_eq path [] then index_html else path

unfoldable pub cache_control : Text → Text
cache_control path =
    if not (text_eq path index_html) && has_prefix path (text "assets/")
    then immutable
    else no_cache

-- The handler without a build
unfoldable pub serve_unbuilt : Paths → Text → Page
serve_unbuilt p url = if text_eq (p.ext (p.clean url)) [] then not_built else not_found

-- The handler with a build
unfoldable pub serve_built : Paths → Files → Text → Page
unfolding cache_control
serve_built p f path =
    if f.stat path
    then file_server path (cache_control path)
    else if text_eq (p.ext path) []
    then elim (f.read index_html) [ none ↦ index_missing | some index ↦ index_page index ]
    else not_found

-- Handler
unfoldable pub serve_page : Paths → Option Files → Text → Page
unfolding built_files serve_unbuilt serve_built page_path
serve_page p dist url = elim (built_files dist) [
  | none ↦ serve_unbuilt p url
  | some f ↦ serve_built p f (page_path p url)
]

no_cache-ne-immutable : text_eq no_cache immutable ≡ false
unfolding text_eq
no_cache-ne-immutable = refl

index_html-no_prefix : has_prefix index_html (text "assets/") ≡ false
unfolding has_prefix
index_html-no_prefix = refl

cache_control_forever :
    (path : Text) → (cache_control path ≡ immutable) ↔ (has_prefix path (text "assets/") ≡ true)
unfolding cache_control
cache_control_forever path = elim (Bool-cases (has_prefix path (text "assets/"))) [
  | inr e ↦ ground (arith, text_eq_iff no_cache immutable, no_cache-ne-immutable)
  | inl e ↦ elim (Bool-cases (text_eq path index_html)) [
    | inr e' ↦ ground arith
    | inl e' ↦
        let same : path ≡ index_html = (text_eq_iff path index_html).0 e' in
        let bad : has_prefix index_html (text "assets/") ≡ true = rw (sym same) e in
        absurd (ground (arith, index_html-no_prefix))
  ]
]

-- With a build whose files can be read, a path that is there goes to the file server, to be cached for
-- a year exactly where it is below assets/. Of the other paths one with an extension gets 404, and
-- one without gets index.html.
pub serve_page_built :
    (p : Paths) (f : Files) (url index : Text)
    → f.stat index_html ≡ true
    → f.read index_html ≡ some index
    → let path = page_path p url in
      ((cache : Text) × (f.stat path ≡ true)
        × (serve_page p (some f) url ≡ file_server path cache)
        × ((cache ≡ immutable) ↔ (has_prefix path (text "assets/") ≡ true)))
      ⊎ ((f.stat path ≡ false) × (p.ext path ≢ []) × (serve_page p (some f) url ≡ not_found))
      ⊎ ((f.stat path ≡ false) × (p.ext path ≡ []) × (serve_page p (some f) url ≡ index_page index))
unfolding serve_page serve_built built_files
serve_page_built p f url index built readable =
    let path = page_path p url in
    elim (Bool-cases (f.stat path)) [
      | inl e ↦
          inl
            (cache_control path, e, rw (built, serve_page) (rw e refl), cache_control_forever path)
      | inr e ↦ elim (Bool-cases (text_eq (p.ext path) [])) [
        | inl e' ↦ inr (
            inr (
              e,
              (text_eq_iff (p.ext path) []).0 e',
              rw (built, serve_page) (rw (e, e', readable) refl),
            ))
        | inr e' ↦ inr (
            inl (
              e,
              (λ same. ground (arith, text_eq_iff (p.ext path) [])),
              rw (built, serve_page) (rw (e, e') refl),
            ))
      ]
    ]
