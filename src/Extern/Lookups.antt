-- ===== src/Extern/Lookups.antt =====
-- Require and Available of internal/extern/extern.go, one call after the other.
use manualbox.Prelude.{
  ◌≡◌, refl, sym, true, none, some, List, [], ◌∷◌, ok, err, Option-cases, Bool-cases, ◌⊎◌, inl, inr,
}
use manualbox.Prelude.Text.{Text, text_eq, text_eq_iff, text_eq_refl}
use manualbox.Extern.{Dictionary, lookup, Tool, required, Shell, install_hint, require, available}

-- Calls of Require and Available, each with the PATH at its time.
unfoldable pub require_all : List (Shell × Tool) → Dictionary → Dictionary
require_all [] cache = cache
require_all ((s, t) ∷ calls) cache = require_all calls (require s t cache).0

lookup-added :
    (cache : Dictionary) (j v k path : Text)
    → lookup j cache ≡ none
    → lookup k cache ≡ some path
    → lookup k ((j, v) ∷ cache) ≡ some path
unfolding lookup
lookup-added cache j v k path gone h = elim (Bool-cases (text_eq j k)) [
  | inl e ↦
      let same : j ≡ k = (text_eq_iff j k).0 e in
      let bad : lookup k cache ≡ none = rw (sym same) gone in cc
  | inr e ↦ rw e h
]

require-keeps :
    (s : Shell) (t : Tool) (cache : Dictionary) (name path : Text)
    → lookup name cache ≡ some path
    → lookup name (require s t cache).0 ≡ some path
unfolding require lookup
require-keeps s t cache name path h = elim (Option-cases (lookup t.name cache)) [
  | inr (p, e) ↦ rw (e, require) h
  | inl e ↦ elim (Option-cases (s.look_path t.name)) [
    | inl e' ↦ rw (e, require) (rw (e', require) h)
    | inr (p, e') ↦ rw (e, require) (rw (e', require) (lookup-added cache t.name p name path e h))
  ]
]

require_all-keeps :
    (calls : List (Shell × Tool)) (cache : Dictionary) (name path : Text)
    → lookup name cache ≡ some path
    → lookup name (require_all calls cache) ≡ some path
unfolding require_all
require_all-keeps [] cache name path h = h
require_all-keeps ((s, t) ∷ calls) cache name path h =
    require_all-keeps calls (require s t cache).0 name path (require-keeps s t cache name path h)

require-cached :
    (s : Shell) (t : Tool) (cache : Dictionary) (path : Text)
    → lookup t.name cache ≡ some path
    → (require s t cache ≡ (cache, ok path)) × (available s t cache ≡ (cache, true))
unfolding available
require-cached s t cache path h =
    let e : require s t cache ≡ (cache, ok path) = unfold require in rw (h, require) refl in
    (e, rw e refl)

-- Require names the path that was resolved before, or else the one on the PATH. From then on, after
-- any calls for any tools with any PATH, it returns that path and Available says so. Where there is
-- neither, it fails with the tool, its purpose and the hint, and remembers nothing.
pub require_outcome :
    (s : Shell) (t : Tool) (cache : Dictionary)
    → ((path : Text) × (cache' : Dictionary) × (require s t cache ≡ (cache', ok path))
        × ((lookup t.name cache ≡ some path)
            ⊎ ((lookup t.name cache ≡ none) × (s.look_path t.name ≡ some path)))
        × ((s' : Shell) (calls : List (Shell × Tool))
            → let now = require_all calls cache' in
              (require s' t now ≡ (now, ok path)) × (available s' t now ≡ (now, true))))
      ⊎ ((lookup t.name cache ≡ none)
          × (s.look_path t.name ≡ none)
          × (require s t cache ≡ (cache, err (required t.name t.purpose (install_hint s t)))))
unfolding require lookup
require_outcome s t cache = elim (Option-cases (lookup t.name cache)) [
  | inr (path, e) ↦ inl (
    path,
    cache,
    (require-cached s t cache path e).0,
    inl e,
    λ s' calls.
        require-cached s' t (require_all calls cache) path
          (require_all-keeps calls cache t.name path e),
  )
  | inl e ↦ elim (Option-cases (s.look_path t.name)) [
    | inl e' ↦ inr (e, e', rw (e, require) (rw e' refl))
    | inr (path, e') ↦
        let cache' : Dictionary = (t.name, path) ∷ cache in
        let there : lookup t.name cache' ≡ some path = rw (text_eq_refl t.name) refl in
        inl (
          path,
          cache',
          rw (e, require) (rw e' refl),
          inr (e, e'),
          λ s' calls.
              require-cached s' t (require_all calls cache') path
                (require_all-keeps calls cache' t.name path there),
        )
  ]
]
