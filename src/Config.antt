-- ===== src/Config.antt =====
-- internal/config/config.go and secret.go: the configuration, its canonical form and its checks. The
-- YAML decoder and the environment parser fill the record; net/url, x/text/language and filepath are
-- parameters.
pub mod Canonical
pub mod Checks
pub mod Validity
use manualbox.Prelude.{
  ℕ, ◌*◌, ◌^◌, Bool, true, false, ◌&&◌, ◌||◌, not, Option, none, some, List, [], ◌∷◌, ◌++◌, map,
  Result, ok, err, if◌then◌else◌, ◌==◌,
}
use manualbox.Prelude.Int.{ℤ, pos, negsuc, ltb_ℤ}
use manualbox.Prelude.Text.{Text, text, text_eq}
use manualbox.Prelude.Lists.{length}
use manualbox.Clock.{minute, second}
use manualbox.Store.{join}
use manualbox.Jobs.Worker.{PoolConfig}

-- Secret, with String, which GoString, LogValue, MarshalJSON and MarshalYAML return too.
abbrev pub Secret : Type 0
Secret = Text

unfoldable pub secret_string : Secret → Text
secret_string s = if text_eq s [] then [] else text "«redacted»"

unfoldable pub is_set : Secret → Bool
is_set s = not (text_eq s [])

-- Server. A duration is a number of nanoseconds.
pub record Server : Type 0 where
  pub addr : Text
  pub base_url : Text
  pub data_dir : Text
  pub trust_proxy : Bool
  pub read_timeout : ℤ
  pub write_timeout : ℤ
  pub max_upload_bytes : ℤ

-- Content
pub record Content : Type 0 where
  pub languages : List Text
  pub ocr_languages : List Text

-- Provider
pub record Provider : Type 0 where
  pub kind : Text
  pub model : Text
  pub api_key : Secret
  pub base_url : Text
  pub options : List (Text × Text)

-- Providers
pub record Providers : Type 0 where
  pub convert : Provider
  pub ocr : Provider
  pub translate : Provider
  pub extract : Provider

-- Log
pub record Log : Type 0 where
  pub level : Text
  pub format : Text

-- Config
pub record Config : Type 0 where
  pub server : Server
  pub content : Content
  pub providers : Providers
  pub jobs : PoolConfig
  pub log : Log

-- Enabled
unfoldable pub enabled : Provider → Bool
enabled p = not (text_eq p.kind [])

abbrev pub provider_of_kind : Text → Provider
provider_of_kind kind = record {
  kind = kind;
  model = [];
  api_key = [];
  base_url = [];
  options = [];
}

-- Default
abbrev pub default_config : Config
default_config = record {
  server = record {
    addr = text ":7745";
    base_url = text "http://localhost:7745";
    data_dir = text "./data";
    trust_proxy = false;
    read_timeout = pos (5 * minute);
    write_timeout = pos 0;
    max_upload_bytes = pos (512 * 2 ^ 20);
  };
  content = record { languages = text "en" ∷ []; ocr_languages = [] };
  providers = record {
    convert = provider_of_kind (text "poppler");
    ocr = provider_of_kind (text "tesseract");
    translate = provider_of_kind [];
    extract = provider_of_kind [];
  };
  jobs = record {
    workers = pos 2;
    poll_interval = pos (2 * second);
    lease_duration = pos (15 * minute);
    max_attempts = pos 3;
  };
  log = record { level = text "info"; format = text "text" };
}

-- filepath.Abs; the scheme and the host that url.Parse finds; strings.TrimSpace and ToLower; the base
-- of a language that x/text parses, and the three letters of a base.
pub record Parsers : Type 0 where
  pub absolute : Text → Option Text
  pub parse_url : Text → Option (Text × Text)
  pub trim_space : Text → Text
  pub to_lower : Text → Text
  pub parse_language : Text → Option Text
  pub iso3 : Text → Text

-- dedupe; `seen` is the set of what was kept.
abbrev pub is_in : Text → List Text → Bool
is_in v [] = false
is_in v (x ∷ xs) = text_eq x v || is_in v xs

unfoldable pub dedupe_from : List Text → List Text → List Text
dedupe_from seen [] = []
dedupe_from seen (v ∷ vs) =
    if text_eq v []
    then dedupe_from seen vs
    else if is_in v seen
    then dedupe_from seen vs
    else v ∷ dedupe_from (v ∷ seen) vs

unfoldable pub dedupe : List Text → List Text
unfolding dedupe_from
dedupe vs = dedupe_from [] vs

-- tesseractISO3
abbrev pub tesseract_iso3 : Text → Option Text
tesseract_iso3 base =
    if text_eq base (text "zh")
    then some (text "chi_sim")
    else if text_eq base (text "ko")
    then some (text "kor")
    else if text_eq base (text "ja")
    then some (text "jpn")
    else none

-- The loop of tesseractCodes.
abbrev pub code_of : Parsers → Text → Text
code_of g base = elim (tesseract_iso3 base) [ some code ↦ code | none ↦ g.iso3 base ]

unfoldable pub codes_of : Parsers → List Text → List Text
codes_of g [] = []
codes_of g (t ∷ ts) = elim (g.parse_language t) [
  | none ↦ codes_of g ts
  | some base ↦ code_of g base ∷ codes_of g ts
]

-- tesseractCodes
unfoldable pub tesseract_codes : Parsers → List Text → List Text
unfolding codes_of
tesseract_codes g tags = dedupe (codes_of g tags ++ text "eng" ∷ [])

-- strings.TrimRight of "/"
unfoldable pub trim_slashes : Text → Text
trim_slashes [] = []
trim_slashes (b ∷ bs) =
    let rest = trim_slashes bs in
    elim rest [ [] ↦ if b == 47 then [] else b ∷ [] | x ∷ xs ↦ b ∷ x ∷ xs ]

-- normalize, given the absolute data directory
unfoldable pub normalized : Parsers → Text → Config → Config
unfolding dedupe tesseract_codes trim_slashes
normalized g dir c =
    let languages = dedupe (map g.trim_space c.content.languages) in
    record c {
      server = record c.server { data_dir = dir; base_url = trim_slashes c.server.base_url };
      content = record {
        languages = languages;
        ocr_languages =
            if length c.content.ocr_languages == 0
            then tesseract_codes g languages
            else c.content.ocr_languages;
      };
      log = record {
        level = g.to_lower (g.trim_space c.log.level);
        format = g.to_lower (g.trim_space c.log.format);
      };
    }

-- normalize
unfoldable pub normalize : Parsers → Config → Option Config
unfolding normalized
normalize g c = elim (g.absolute c.server.data_dir) [
  | none ↦ none
  | some dir ↦ some (normalized g dir c)
]

-- PrimaryLanguage
unfoldable pub primary_language : Config → Text
primary_language c = elim c.content.languages [ [] ↦ text "en" | t ∷ ts ↦ t ]

-- DBPath and BlobDir
abbrev pub db_path : Config → Text
db_path c = join c.server.data_dir (text "manualbox.db")

abbrev pub blob_dir : Config → Text
blob_dir c = join c.server.data_dir (text "blobs")
