-- ===== src/Config/Validity.antt =====
-- Validate of internal/config/config.go, and NewPool of internal/jobs/worker.go on what it accepts.
use manualbox.Prelude.{
  ℕ, zero, suc, ◌≡◌, ◌<◌, ◌↔◌, ◌/◌, ◌*◌, refl, ap, ◌∙◌, Bool, true, false, not, List, [], ◌∷◌, ◌++◌,
  arith, ◌==◌,
}
use manualbox.Prelude.Int.{ℤ, pos, negsuc, ltb_ℤ}
use manualbox.Prelude.Text.{Text, text_eq}
use manualbox.Prelude.Lists.{length, All}
use manualbox.Clock.{minute, second}
use manualbox.Jobs.Worker.{positive_or, new_pool}
use manualbox.Config.{Config, Parsers}
use manualbox.Config.Checks.{
  Slot, provider_at, Problem, bad_language, bad_provider_url, empty_addr, bad_base_url,
  bad_upload_limit, no_languages, bad_workers, bad_poll_interval, bad_lease_duration,
  bad_max_attempts, bad_level, bad_format, is_absolute_url, is_language, unless, bad_languages,
  provider_ok, bad_providers, is_level, is_format, validate,
}

-- An integer that is at least one.
abbrev pub IsPositive : ℤ → Type 0
IsPositive x = (n : ℕ) × (x ≡ pos (suc n))

-- What a configuration must be.
pub record IsValid (g : Parsers) (slots : List Slot) (c : Config) : Type 0 where
  pub addr : text_eq c.server.addr [] ≡ false
  pub base_url : is_absolute_url g c.server.base_url ≡ true
  pub upload : IsPositive c.server.max_upload_bytes
  pub some_language : (length c.content.languages == 0) ≡ false
  pub languages : All (λ t. is_language g t ≡ true) c.content.languages
  pub workers : IsPositive c.jobs.workers
  pub poll : IsPositive c.jobs.poll_interval
  pub lease : IsPositive c.jobs.lease_duration
  pub attempts : IsPositive c.jobs.max_attempts
  pub level : is_level c.log.level ≡ true
  pub format : is_format c.log.format ≡ true
  pub providers : All (λ s. provider_ok g (provider_at s c) ≡ true) slots

append_nil : {A : Type 0} (xs ys : List A) → xs ++ ys ≡ [] → (xs ≡ []) × (ys ≡ [])
append_nil [] ys e = (refl, e)
append_nil (x ∷ xs) ys e = cc

nil_append : {A : Type 0} {xs ys : List A} → xs ≡ [] → ys ≡ [] → xs ++ ys ≡ []
nil_append {ys = ys} e e' = ap (λ zs. zs ++ ys) e ∙ e'

unless_nil : (b : Bool) (p : Problem) → unless b p ≡ [] → b ≡ true
unless_nil true p e = refl
unless_nil false p e = cc

nil_unless : (b : Bool) (p : Problem) → b ≡ true → unless b p ≡ []
nil_unless b p e = ap (λ b. unless b p) e

not-true : (b : Bool) → not b ≡ true → b ≡ false
not-true b e = ground arith

not-false : (b : Bool) → b ≡ false → not b ≡ true
not-false b e = ground arith

above_zero : (x : ℤ) → ltb_ℤ (pos 0) x ≡ true → IsPositive x
above_zero (pos zero) e = cc
above_zero (pos (suc n)) e = (n, refl)
above_zero (negsuc n) e = ground arith

not_below_one : (x : ℤ) → not (ltb_ℤ x (pos 1)) ≡ true → IsPositive x
not_below_one (pos zero) e = cc
not_below_one (pos (suc n)) e = (n, refl)
not_below_one (negsuc n) e = ground arith

zero_above : (x : ℤ) → IsPositive x → ltb_ℤ (pos 0) x ≡ true
zero_above x (n, e) = ap (ltb_ℤ (pos 0)) e ∙ ground arith

one_not_above : (x : ℤ) → IsPositive x → not (ltb_ℤ x (pos 1)) ≡ true
one_not_above x (n, e) = ap (λ y. not (ltb_ℤ y (pos 1))) e ∙ ground arith

positive_or_kept :
    (d : ℕ) (x : ℤ) → IsPositive x → (pos (positive_or d x) ≡ x) × (0 < positive_or d x)
unfolding positive_or
positive_or_kept d (pos zero) (n, e) = ground arith
positive_or_kept d (pos (suc m)) (n, e) = (ground arith, ground arith)
positive_or_kept d (negsuc m) (n, e) = ground arith

third_iff : (n : ℕ) → (n / 3 ≡ 0) ↔ (n < 3)
third_iff n = ((λ e. omega (arith, e)), (λ e. omega (arith, e)))

module _ (g : Parsers) where
  languages_nil : (ts : List Text) → bad_languages g ts ≡ [] → All (λ t. is_language g t ≡ true) ts
  languages_nil [] e = tt
  languages_nil (t ∷ ts) e =
      let (p, q) = append_nil (unless (is_language g t) (bad_language t)) (bad_languages g ts) e in
      (unless_nil (is_language g t) (bad_language t) p, languages_nil ts q)

  nil_languages : (ts : List Text) → All (λ t. is_language g t ≡ true) ts → bad_languages g ts ≡ []
  nil_languages [] h = refl
  nil_languages (t ∷ ts) h =
      nil_append (nil_unless (is_language g t) (bad_language t) h.0) (nil_languages ts h.1)

  providers_nil :
      (c : Config) (ss : List Slot)
      → bad_providers g c ss ≡ []
      → All (λ s. provider_ok g (provider_at s c) ≡ true) ss
  providers_nil c [] e = tt
  providers_nil c (s ∷ ss) e =
      let good = provider_ok g (provider_at s c) in
      let (p, q) = append_nil (unless good (bad_provider_url s)) (bad_providers g c ss) e in
      (unless_nil good (bad_provider_url s) p, providers_nil c ss q)

  nil_providers :
      (c : Config) (ss : List Slot)
      → All (λ s. provider_ok g (provider_at s c) ≡ true) ss
      → bad_providers g c ss ≡ []
  nil_providers c [] h = refl
  nil_providers c (s ∷ ss) h =
      nil_append (nil_unless (provider_ok g (provider_at s c)) (bad_provider_url s) h.0)
        (nil_providers c ss h.1)

  validate_sound : (slots : List Slot) (c : Config) → validate g slots c ≡ [] → IsValid g slots c
  unfolding validate
  validate_sound slots c e =
      let (e1, r1) = append_nil (unless (not (text_eq c.server.addr [])) empty_addr) _ e in
      let (e2, r2) = append_nil (unless (is_absolute_url g c.server.base_url) bad_base_url) _ r1 in
      let (e3, r3) =
        append_nil (unless (ltb_ℤ (pos 0) c.server.max_upload_bytes) bad_upload_limit) _ r2 in
      let (e4, r4) =
        append_nil (unless (not (length c.content.languages == 0)) no_languages) _ r3 in
      let (e5, r5) = append_nil (bad_languages g c.content.languages) _ r4 in
      let (e6, r6) = append_nil (unless (not (ltb_ℤ c.jobs.workers (pos 1))) bad_workers) _ r5 in
      let (e7, r7) =
        append_nil (unless (ltb_ℤ (pos 0) c.jobs.poll_interval) bad_poll_interval) _ r6 in
      let (e8, r8) =
        append_nil (unless (ltb_ℤ (pos 0) c.jobs.lease_duration) bad_lease_duration) _ r7 in
      let (e9, r9) =
        append_nil (unless (not (ltb_ℤ c.jobs.max_attempts (pos 1))) bad_max_attempts) _ r8 in
      let (e10, r10) = append_nil (unless (is_level c.log.level) bad_level) _ r9 in
      let (e11, r11) = append_nil (unless (is_format c.log.format) bad_format) _ r10 in
      record {
        addr = not-true (text_eq c.server.addr []) (unless_nil _ empty_addr e1);
        base_url = unless_nil _ bad_base_url e2;
        upload = above_zero c.server.max_upload_bytes (unless_nil _ bad_upload_limit e3);
        some_language = not-true (length c.content.languages == 0) (unless_nil _ no_languages e4);
        languages = languages_nil c.content.languages e5;
        workers = not_below_one c.jobs.workers (unless_nil _ bad_workers e6);
        poll = above_zero c.jobs.poll_interval (unless_nil _ bad_poll_interval e7);
        lease = above_zero c.jobs.lease_duration (unless_nil _ bad_lease_duration e8);
        attempts = not_below_one c.jobs.max_attempts (unless_nil _ bad_max_attempts e9);
        level = unless_nil _ bad_level e10;
        format = unless_nil _ bad_format e11;
        providers = providers_nil c slots r11;
      }

  validate_complete : (slots : List Slot) (c : Config) → IsValid g slots c → validate g slots c ≡ []
  unfolding validate
  validate_complete slots c v = nil_append (nil_unless _ empty_addr (not-false _ v.addr)) (
      nil_append (nil_unless _ bad_base_url v.base_url) (
        nil_append (nil_unless _ bad_upload_limit (zero_above _ v.upload)) (
          nil_append (nil_unless _ no_languages (not-false _ v.some_language)) (
            nil_append (nil_languages c.content.languages v.languages) (
              nil_append (nil_unless _ bad_workers (one_not_above _ v.workers)) (
                nil_append (nil_unless _ bad_poll_interval (zero_above _ v.poll)) (
                  nil_append (nil_unless _ bad_lease_duration (zero_above _ v.lease)) (
                    nil_append (nil_unless _ bad_max_attempts (one_not_above _ v.attempts)) (
                      nil_append (nil_unless _ bad_level v.level) (
                        nil_append (nil_unless _ bad_format v.format)
                          (nil_providers c slots v.providers)))))))))))

  -- Validate reports no error of a configuration exactly when its address is not empty, its base URL
  -- is absolute, it has a language and each language parses, its limits for uploads, workers, poll
  -- interval, lease and attempts are at least one, its log level and format are among those known,
  -- and each enabled provider has no URL or an absolute one.
  pub validate_iff :
      (slots : List Slot) (c : Config) → (validate g slots c ≡ []) ↔ IsValid g slots c
  validate_iff slots c = (validate_sound slots c, validate_complete slots c)

  -- NewPool takes the numbers of workers and the durations of a configuration that Validate accepts
  -- as they are; the interval at which leases are renewed is then 0 exactly when the lease is under 3
  -- nanoseconds.
  pub validate-new_pool :
      (slots : List Slot) (c : Config)
      → validate g slots c ≡ []
      → let p = new_pool c.jobs in
        (pos p.workers ≡ c.jobs.workers)
        × (pos p.poll ≡ c.jobs.poll_interval)
        × (pos p.lease ≡ c.jobs.lease_duration)
        × (0 < p.workers)
        × (0 < p.poll)
        × (0 < p.lease)
        × ((p.renew_interval ≡ 0) ↔ (p.lease < 3))
  unfolding new_pool
  validate-new_pool slots c e =
      let v = validate_sound slots c e in
      let (w, w') = positive_or_kept 2 c.jobs.workers v.workers in
      let (p, p') = positive_or_kept (2 * second) c.jobs.poll_interval v.poll in
      let (l, l') = positive_or_kept (15 * minute) c.jobs.lease_duration v.lease in
      (w, p, l, w', p', l', third_iff (positive_or (15 * minute) c.jobs.lease_duration))
