-- ===== src/Tests/Configs.antt =====
-- The default configuration and a repeated list of languages.
use manualbox.Prelude.{◌≡◌, ◌<◌, ◌↔◌, refl, some, List, [], ◌∷◌}
use manualbox.Prelude.Int.{pos}
use manualbox.Prelude.Text.{text, text_eq}
use manualbox.Jobs.Worker.{new_pool}
use manualbox.Config.{Config, Parsers, enabled, default_config}
use manualbox.Config.Checks.{Slot, convert, ocr, translate, extract, validate}
use manualbox.Config.Validity.{IsValid, validate_iff, validate-new_pool}

abbrev lenient : Parsers
lenient = record {
  absolute = λ t. some t;
  parse_url = λ u. some (text "http", u);
  trim_space = λ t. t;
  to_lower = λ t. t;
  parse_language = λ t. some t;
  iso3 = λ b. b;
}

abbrev slots : List Slot
slots = ocr ∷ convert ∷ extract ∷ translate ∷ []

abbrev chosen : Config
chosen = default_config

default_ok : validate lenient slots default_config ≡ []
unfolding validate enabled text_eq
default_ok = refl

validate_iff_example :
    (validate lenient slots default_config ≡ []) ↔ IsValid lenient slots default_config
validate_iff_example = validate_iff lenient slots default_config

validate-new_pool_example :
    (pos (new_pool chosen.jobs).workers ≡ chosen.jobs.workers)
    × (pos (new_pool chosen.jobs).poll ≡ chosen.jobs.poll_interval)
    × (pos (new_pool chosen.jobs).lease ≡ chosen.jobs.lease_duration)
    × (0 < (new_pool chosen.jobs).workers)
    × (0 < (new_pool chosen.jobs).poll)
    × (0 < (new_pool chosen.jobs).lease)
    × (((new_pool chosen.jobs).renew_interval ≡ 0) ↔ ((new_pool chosen.jobs).lease < 3))
validate-new_pool_example = validate-new_pool lenient slots default_config default_ok
