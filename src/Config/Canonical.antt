-- ===== src/Config/Canonical.antt =====
-- dedupe of internal/config/config.go against an independent definition.
use manualbox.Prelude.{
  ◌≡◌, refl, sym, ap, ◌∙◌, Bool, true, not, ◌&&◌, List, [], ◌∷◌, Bool-cases, inl, inr,
  if◌then◌else◌, arith,
}
use manualbox.Prelude.Text.{Text, text_eq, text_eq_iff}
use manualbox.Prelude.Lists.{keep}
use manualbox.Config.{is_in, dedupe_from, dedupe}

-- The first occurrences of the texts that are not empty: after a text, no other like it is kept.
pub firsts : List Text → List Text
firsts [] = []
firsts (v ∷ vs) =
    let rest = firsts vs in if text_eq v [] then rest else v ∷ keep (λ x. not (text_eq v x)) rest

keep_all : (p : Text → Bool) (xs : List Text) → ((x : Text) → p x ≡ true) → keep p xs ≡ xs
unfolding keep
keep_all p [] h = refl
keep_all p (x ∷ xs) h = rw (h x) (ap (λ ys. x ∷ ys) (keep_all p xs h))

keep-keep_absorb :
    (p q : Text → Bool) (xs : List Text)
    → ((x : Text) → p x ≡ true → q x ≡ true)
    → keep p (keep q xs) ≡ keep p xs
unfolding keep
keep-keep_absorb p q [] h = refl
keep-keep_absorb p q (x ∷ xs) h = ground (arith, h x, keep-keep_absorb p q xs h)

keep-keep :
    (p q r : Text → Bool) (xs : List Text)
    → ((x : Text) → r x ≡ q x && p x)
    → keep p (keep q xs) ≡ keep r xs
unfolding keep
keep-keep p q r [] h = refl
keep-keep p q r (x ∷ xs) h = ground (arith, h x, keep-keep p q r xs h)

new_to : List Text → Text → Bool
new_to seen x = not (is_in x seen)

new_to_other :
    (seen : List Text) (v : Text)
    → is_in v seen ≡ true
    → (x : Text) → new_to seen x ≡ true
    → not (text_eq v x) ≡ true
unfolding new_to
new_to_other seen v q x h = elim (Bool-cases (text_eq v x)) [
  | inr e ↦ ap not e
  | inl e ↦
      let there : is_in x seen ≡ true = ap (λ y. is_in y seen) (sym ((text_eq_iff v x).0 e)) ∙ q in
      ground arith
]

new_to_more :
    (seen : List Text) (v x : Text) → new_to (v ∷ seen) x ≡ not (text_eq v x) && new_to seen x
unfolding new_to
new_to_more seen v x = ground arith

dedupe_from-firsts : (seen vs : List Text) → dedupe_from seen vs ≡ keep (new_to seen) (firsts vs)
unfolding dedupe_from firsts keep new_to
dedupe_from-firsts seen [] = refl
dedupe_from-firsts seen (v ∷ vs) = elim (Bool-cases (text_eq v [])) [
  | inl e ↦ rw (e, dedupe_from, firsts) (dedupe_from-firsts seen vs)
  | inr e ↦ elim (Bool-cases (is_in v seen)) [
    | inl q ↦
        rw (e, dedupe_from, firsts)
          (rw (q, new_to)
            (dedupe_from-firsts seen vs
              ∙ sym (
                  keep-keep_absorb (new_to seen) (λ x. not (text_eq v x)) (firsts vs)
                    (new_to_other seen v q))))
    | inr q ↦
        rw (e, dedupe_from, firsts)
          (rw (q, new_to)
            (ap (λ (xs : List Text). v ∷ xs)
              (dedupe_from-firsts (v ∷ seen) vs
                ∙ sym (
                    keep-keep (new_to seen) (λ x. not (text_eq v x)) (new_to (v ∷ seen)) (firsts vs)
                      (new_to_more seen v)))))
  ]
]

-- dedupe gives the first occurrence of each text that is not empty, in order.
pub dedupe-firsts : (vs : List Text) → dedupe vs ≡ firsts vs
unfolding dedupe new_to
dedupe-firsts vs = dedupe_from-firsts [] vs ∙ keep_all (new_to []) (firsts vs) (λ x. refl)
