-- ===== src/Api/Addresses.antt =====
-- The address of the client in internal/api/middleware.go.
use manualbox.Prelude.{
  ℕ, ◌≡◌, refl, ap, ◌∙◌, true, false, List, [], ◌∷◌, ◌++◌, Bool-cases, inl, inr, if◌then◌else◌,
  arith, ◌==◌,
}
use manualbox.Prelude.Text.{Text, text_eq}
use manualbox.Prelude.Lists.{All}
use manualbox.Auth.Passwords.{before_first, split_at}
use manualbox.Auth.Hashing.{split_at_whole}
use manualbox.Config.{Config}
use manualbox.Api.{
  Request, Web, header_get, last_part, x_forwarded_for, forwarded_client_ip, real_ip,
}

last_part-append : (p : Text) (ps : List Text) (t : Text) → last_part (p ∷ (ps ++ t ∷ [])) ≡ t
unfolding last_part
last_part-append p [] t = refl
last_part-append p (q ∷ ps) t = last_part-append q ps t

-- The parts of a text that ends in a separator and a text without it.
split_at-append :
    (d : ℕ) (front t : Text)
    → All (λ b. (b == d) ≡ false) t
    → (p : Text) × (ps : List Text) × (split_at d (front ++ d ∷ t) ≡ p ∷ (ps ++ t ∷ []))
unfolding split_at
split_at-append d [] t h =
    let same : (d == d) ≡ true = ground arith in
    ([], [], rw (same, split_at) (ap (λ (xs : List Text). [] ∷ xs) (split_at_whole d t h)))
split_at-append d (b ∷ bs) t h =
    let (p, ps, e) = split_at-append d bs t h in
    elim (Bool-cases (b == d)) [
      | inl q ↦ ([], p ∷ ps, rw (q, split_at) (ap (λ (xs : List Text). [] ∷ xs) e))
      | inr q ↦ (b ∷ p, ps, rw (q, split_at) (ap (before_first b) e))
    ]

not_blank : (front entry : Text) → text_eq (front ++ 44 ∷ entry) [] ≡ false
unfolding text_eq
not_blank [] entry = refl
not_blank (b ∷ bs) entry = refl

module _ (w : Web) (cfg : Config) (r : Request) where
  -- When the first line X-Forwarded-For ends in a comma and an entry that is not blank, realIP gives
  -- the request that entry, trimmed, as its address if the proxy is trusted, whatever stands before
  -- the comma, and leaves the address as it is otherwise.
  pub real_ip-forwarded :
      (front entry : Text)
      → header_get x_forwarded_for r.headers ≡ front ++ 44 ∷ entry
      → All (λ b. (b == 44) ≡ false) entry
      → text_eq (w.trim_space entry) [] ≡ false
      → (real_ip w cfg r).remote_addr
        ≡ (if cfg.server.trust_proxy then w.trim_space entry else r.remote_addr)
  unfolding real_ip
  real_ip-forwarded front entry e h named =
      let (p, ps, q) = split_at-append 44 front entry h in
      let line = header_get x_forwarded_for r.headers in
      let last : last_part (split_at 44 line) ≡ entry =
        ap (λ (x : Text). last_part (split_at 44 x)) e
        ∙ (ap last_part q ∙ last_part-append p ps entry) in
      let given : text_eq line [] ≡ false =
        ap (λ (x : Text). text_eq x []) e ∙ not_blank front entry in
      let ip : forwarded_client_ip w r.headers ≡ w.trim_space entry =
        unfold forwarded_client_ip in rw (given, forwarded_client_ip) (rw last (rw named refl)) in
      let kept : text_eq (forwarded_client_ip w r.headers) [] ≡ false =
        ap (λ (x : Text). text_eq x []) ip ∙ named in
      ground (arith, ip, kept)
