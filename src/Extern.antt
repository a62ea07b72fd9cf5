-- ===== src/Extern.antt =====
-- internal/extern/extern.go: the optional command-line tools. The PATH, the run of a command, the
-- regular expression and the operating system are parameters.
pub mod Lookups
use manualbox.Prelude.{
  Bool, true, false, Option, none, some, List, [], ◌∷◌, map, Result, ok, err, if◌then◌else◌, ◌==◌,
}
use manualbox.Prelude.Text.{Text, text, text_eq}

-- A map with texts as keys.
abbrev pub Dictionary : Type 0
Dictionary = List (Text × Text)

unfoldable pub lookup : Text → Dictionary → Option Text
lookup k [] = none
lookup k ((j, v) ∷ m) = if text_eq j k then some v else lookup k m

-- Tool
pub record Tool : Type 0 where
  pub name : Text
  pub purpose : Text
  pub version_args : List Text
  pub install : Dictionary

-- ErrNotFound, for a name; with the purpose and the hint, in the error of Require.
pub data ExternError : Type 0 where
  not_found : Text → ExternError
  required : Text → Text → Text → ExternError

-- Status, beside its tool
pub record Status : Type 0 where
  pub tool : Tool
  pub found : Bool
  pub path : Text
  pub version : Text
  pub error : Option ExternError

-- exec.LookPath, what a command prints within its time, the version that the pattern finds in it or
-- nothing, strings.TrimSpace, and runtime.GOOS.
pub record Shell : Type 0 where
  pub look_path : Text → Option Text
  pub output : Text → List Text → Text
  pub find_version : Text → Text
  pub trim_space : Text → Text
  pub os : Text

-- The value of a key of a Go map, with the empty text for a missing one.
abbrev or_empty : Option Text → Text
or_empty none = []
or_empty (some v) = v

-- InstallHint
unfoldable pub install_hint : Shell → Tool → Text
unfolding lookup
install_hint s t = elim (lookup s.os t.install) [
  | some hint ↦ hint
  | none ↦ or_empty (lookup (text "default") t.install)
]

abbrev pub poppler_install : Dictionary
poppler_install =
    (text "darwin", text "brew install poppler")
    ∷ (text "linux", text "apt install poppler-utils")
    ∷ (text "default", text "https://poppler.freedesktop.org/")
    ∷ []

abbrev pub poppler_tool : Text → Text → Tool
poppler_tool name purpose = record {
  name = name;
  purpose = purpose;
  version_args = text "-v" ∷ [];
  install = poppler_install;
}

abbrev pub pdf_to_text : Tool
pdf_to_text =
    poppler_tool (text "pdftotext") (text "extract text and layout from PDFs with a text layer")

abbrev pub pdf_to_ppm : Tool
pdf_to_ppm =
    poppler_tool (text "pdftoppm") (text "render PDF pages to images for OCR and vision conversion")

abbrev pub pdf_images : Tool
pdf_images = poppler_tool (text "pdfimages") (text "extract embedded illustrations from PDFs")

abbrev pub pdf_info : Tool
pdf_info = poppler_tool (text "pdfinfo") (text "read PDF page count and metadata")

abbrev pub tesseract : Tool
tesseract = record {
  name = text "tesseract";
  purpose = text "OCR scanned manuals and phone photos";
  version_args = text "--version" ∷ [];
  install =
      (text "darwin", text "brew install tesseract tesseract-lang")
      ∷ (text "linux", text "apt install tesseract-ocr tesseract-ocr-all")
      ∷ (text "default", text "https://tesseract-ocr.github.io/tessdoc/Installation.html")
      ∷ [];
}

-- All
abbrev pub all_tools : List Tool
all_tools = pdf_to_text ∷ pdf_to_ppm ∷ pdf_images ∷ pdf_info ∷ tesseract ∷ []

-- firstLine
unfoldable pub first_line : Text → Text
first_line [] = []
first_line (b ∷ bs) = let rest = first_line bs in if b == 10 then [] else b ∷ rest

-- The version that Probe reads in what a tool prints.
unfoldable pub version_of : Shell → Text → Text
unfolding first_line
version_of s out =
    let v = s.find_version out in
    let banner = s.trim_space out in
    if text_eq v [] then (if text_eq banner [] then [] else first_line banner) else v

abbrev is_empty : List Text → Bool
is_empty [] = true
is_empty (_ ∷ _) = false

-- Probe
unfoldable pub probe : Shell → Tool → Status
unfolding version_of
probe s t = elim (s.look_path t.name) [
  | none ↦ record {
    tool = t;
    found = false;
    path = [];
    version = [];
    error = some (not_found t.name);
  }
  | some path ↦ record {
    tool = t;
    found = true;
    path = path;
    version = if is_empty t.version_args then [] else version_of s (s.output path t.version_args);
    error = none;
  }
]

-- ProbeAll; each goroutine fills the place of its tool.
unfoldable pub probe_all : Shell → List Status
unfolding probe
probe_all s = map (probe s) all_tools

-- Require, over the cache of resolved paths
unfoldable pub require : Shell → Tool → Dictionary → Dictionary × Result ExternError Text
unfolding lookup install_hint
require s t cache = elim (lookup t.name cache) [
  | some path ↦ (cache, ok path)
  | none ↦ elim (s.look_path t.name) [
    | none ↦ (cache, err (required t.name t.purpose (install_hint s t)))
    | some path ↦ ((t.name, path) ∷ cache, ok path)
  ]
]

abbrev is_ok : Result ExternError Text → Bool
is_ok (ok path) = true
is_ok (err e) = false

-- Available
unfoldable pub available : Shell → Tool → Dictionary → Dictionary × Bool
unfolding require
available s t cache = let (cache', r) = require s t cache in (cache', is_ok r)
