-- ===== src/Config/Checks.antt =====
-- Validate and Load of internal/config/config.go.
use manualbox.Prelude.{
  Bool, true, false, ◌||◌, not, Option, none, some, List, [], ◌∷◌, ◌++◌, if◌then◌else◌, ◌==◌,
}
use manualbox.Prelude.Int.{pos, ltb_ℤ}
use manualbox.Prelude.Text.{Text, text, text_eq}
use manualbox.Prelude.Lists.{length}
use manualbox.Config.{Config, Provider, Parsers, enabled, default_config, normalize}

-- The providers, in the order in which Go's range takes the map.
pub data Slot : Type 0 where
  convert ocr translate extract : Slot

abbrev pub provider_at : Slot → Config → Provider
provider_at convert c = c.providers.convert
provider_at ocr c = c.providers.ocr
provider_at translate c = c.providers.translate
provider_at extract c = c.providers.extract

-- The errors of Validate.
pub data Problem : Type 0 where
  empty_addr bad_base_url bad_upload_limit no_languages bad_workers : Problem
  bad_poll_interval bad_lease_duration bad_max_attempts bad_level bad_format : Problem
  bad_language : Text → Problem
  bad_provider_url : Slot → Problem

-- url.Parse with a scheme and a host
abbrev pub is_absolute_url : Parsers → Text → Bool
is_absolute_url g u = elim (g.parse_url u) [
  | none ↦ false
  | some (scheme, host) ↦ not (text_eq scheme [] || text_eq host [])
]

abbrev pub is_language : Parsers → Text → Bool
is_language g t = elim (g.parse_language t) [ none ↦ false | some b ↦ true ]

-- append(errs, …) under an if
abbrev pub unless : Bool → Problem → List Problem
unless good p = if good then [] else p ∷ []

abbrev pub bad_languages : Parsers → List Text → List Problem
bad_languages g [] = []
bad_languages g (t ∷ ts) = unless (is_language g t) (bad_language t) ++ bad_languages g ts

abbrev pub provider_ok : Parsers → Provider → Bool
provider_ok g p = not (enabled p) || (text_eq p.base_url [] || is_absolute_url g p.base_url)

abbrev pub bad_providers : Parsers → Config → List Slot → List Problem
bad_providers g c [] = []
bad_providers g c (s ∷ ss) =
    unless (provider_ok g (provider_at s c)) (bad_provider_url s) ++ bad_providers g c ss

abbrev pub is_level : Text → Bool
is_level l =
    text_eq l (text "debug")
    || (text_eq l (text "info") || (text_eq l (text "warn") || text_eq l (text "error")))

abbrev pub is_format : Text → Bool
is_format f = text_eq f (text "text") || text_eq f (text "json")

-- Validate, with the order of the providers; no error when the list is empty.
unfoldable pub validate : Parsers → List Slot → Config → List Problem
validate g slots c =
    unless (not (text_eq c.server.addr [])) empty_addr
    ++ (unless (is_absolute_url g c.server.base_url) bad_base_url
        ++ (unless (ltb_ℤ (pos 0) c.server.max_upload_bytes) bad_upload_limit
            ++ (unless (not (length c.content.languages == 0)) no_languages
                ++ (bad_languages g c.content.languages
                    ++ (unless (not (ltb_ℤ c.jobs.workers (pos 1))) bad_workers
                        ++ (unless (ltb_ℤ (pos 0) c.jobs.poll_interval) bad_poll_interval
                            ++ (unless (ltb_ℤ (pos 0) c.jobs.lease_duration) bad_lease_duration
                                ++ (unless (not (ltb_ℤ c.jobs.max_attempts (pos 1)))
                                      bad_max_attempts
                                    ++ (unless (is_level c.log.level) bad_level
                                        ++ (unless (is_format c.log.format) bad_format
                                            ++ bad_providers g c slots))))))))))

-- What Load takes from outside: os.ReadFile (no file, another error, or the bytes), the decoding of
-- the bytes over the defaults, and the environment over that.
pub data Reading : Type 0 where
  absent : Reading
  unreadable : Text → Reading
  contents : Text → Reading

pub record LoadCall : Type 0 where
  pub read : Text → Reading
  pub decode : Text → Config → Option Config
  pub environment : Config → Option Config
  pub slots : List Slot

pub data LoadError : Type 0 where
  unreadable_file bad_yaml bad_environment bad_data_dir : LoadError

-- What Load returns: an error before there is a configuration, or one with its problems.
pub data Loaded : Type 0 where
  failed : LoadError → Loaded
  loaded : Config → List Problem → Loaded

-- Load, from the environment on
unfoldable pub finish_load : Parsers → LoadCall → Config → Loaded
unfolding validate
finish_load g call c = elim (call.environment c) [
  | none ↦ failed bad_environment
  | some c' ↦ elim (normalize g c') [
    | none ↦ failed bad_data_dir
    | some c'' ↦ loaded c'' (validate g call.slots c'')
  ]
]

-- Load
unfoldable pub load : Parsers → LoadCall → Text → Loaded
unfolding finish_load
load g call path =
    let explicit = not (text_eq path []) in
    elim (call.read (if explicit then path else text "config.yaml")) [
      | unreadable m ↦ failed unreadable_file
      | absent ↦ if explicit then failed unreadable_file else finish_load g call default_config
      | contents bytes ↦ elim (call.decode bytes default_config) [
        | none ↦ failed bad_yaml
        | some c ↦ finish_load g call c
      ]
    ]
