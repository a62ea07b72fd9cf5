-- ===== src/Tests/Services.antt =====
-- External tools, pages and connections at concrete inputs.
use manualbox.Prelude.{
  ◌≡◌, ◌≢◌, ◌↔◌, refl, true, false, Option, none, some, List, [], ◌∷◌, ok, err, ◌⊎◌, if◌then◌else◌,
  ◌==◌, arith,
}
use manualbox.Prelude.Text.{Text, text, text_eq, has_prefix}
use manualbox.Prelude.Int.{pos}
use manualbox.Auth.{commit_password}
use manualbox.Db.{Pools, Db, Options, OpenCall, OpenError, is_memory, open_db, close_db, tx}
use manualbox.Db.Opening.{open_db_outcome}
use manualbox.Db.Transactions.{change_body, wrap_fault, returned, tx-commit_password}
use manualbox.Tests.Logins.{household}
use manualbox.Extern.{
  Dictionary, lookup, Shell, Tool, tesseract, required, install_hint, require, available,
}
use manualbox.Extern.Lookups.{require_all, require_outcome}
use manualbox.Frontend.{
  Paths, Files, not_found, file_server, index_page, index_html, immutable, page_path, serve_page,
  serve_page_built,
}

abbrev pub bare_shell : Shell
bare_shell = record {
  look_path = λ name. none;
  output = λ path args. [];
  find_version = λ out. [];
  trim_space = λ t. t;
  os = text "plan9";
}

abbrev full_shell : Shell
full_shell = record bare_shell { look_path = λ name. some name }

require_outcome_example :
    ((path : Text) × (cache' : Dictionary) × (require full_shell tesseract [] ≡ (cache', ok path))
      × ((lookup (text "tesseract") [] ≡ some path)
          ⊎ ((lookup (text "tesseract") [] ≡ none)
              × (◌≡◌ {A = Option Text} (some (text "tesseract")) (some path))))
      × ((s' : Shell) (calls : List (Shell × Tool))
          → let now = require_all calls cache' in
            (require s' tesseract now ≡ (now, ok path))
            × (available s' tesseract now ≡ (now, true))))
    ⊎ ((lookup (text "tesseract") [] ≡ none)
        × (◌≡◌ {A = Option Text} (some (text "tesseract")) none)
        × (require full_shell tesseract [] ≡ (
          [],
          err (required tesseract.name tesseract.purpose (install_hint full_shell tesseract)),
        )))
require_outcome_example = require_outcome full_shell tesseract []

-- A text from its first dot on.
abbrev from_dot : Text → Text
from_dot [] = []
from_dot (b ∷ bs) = let rest = from_dot bs in if b == 46 then b ∷ bs else rest

abbrev pub plain_paths : Paths
plain_paths = record { clean = λ t. t; ext = from_dot }

abbrev one_file : Files
one_file = record { stat = λ t. text_eq t index_html; read = λ t. some (text "<html>") }

index_is_there : one_file.stat index_html ≡ true
unfolding text_eq
index_is_there = refl

serve_page_built_example :
    let path = page_path plain_paths (text "devices") in
    ((cache : Text) × (one_file.stat path ≡ true)
      × (serve_page plain_paths (some one_file) (text "devices") ≡ file_server path cache)
      × ((cache ≡ immutable) ↔ (has_prefix path (text "assets/") ≡ true)))
    ⊎ ((one_file.stat path ≡ false)
        × (plain_paths.ext path ≢ [])
        × (serve_page plain_paths (some one_file) (text "devices") ≡ not_found))
    ⊎ ((one_file.stat path ≡ false)
        × (plain_paths.ext path ≡ [])
        × (serve_page plain_paths (some one_file) (text "devices") ≡ index_page (text "<html>")))
serve_page_built_example =
    serve_page_built plain_paths one_file (text "devices") (text "<html>") index_is_there refl

abbrev file_options : Options
file_options = record { path = text "box.db"; max_readers = pos 0; busy_timeout = pos 0 }

-- The read pool answers no ping.
abbrev broken_open : OpenCall
broken_open = record {
  cpus = 2;
  write_fault = none;
  write_ping_fault = none;
  migrate_fault = none;
  read_fault = none;
  read_ping_fault = some (text "I/O error");
}

abbrev one_pool : Pools
one_pool = record { next = 4; live = 3 ∷ [] }

open_db_outcome_example :
    ((ps' : Pools) × (e : OpenError) × (open_db file_options broken_open one_pool ≡ (ps', err e))
      × (ps'.live ≡ 3 ∷ []))
    ⊎ ((ps' : Pools) × (d : Db) × (open_db file_options broken_open one_pool ≡ (ps', ok d))
        × (d.write.max_open ≡ 1)
        × (ps'.live ≡ (
            if is_memory file_options.path
            then d.write.handle ∷ 3 ∷ []
            else d.read.handle ∷ d.write.handle ∷ 3 ∷ []))
        × ((close_db d ps').live ≡ 3 ∷ []))
open_db_outcome_example = open_db_outcome file_options broken_open one_pool (omega arith, tt)

tx-commit_password_example :
    tx wrap_fault none
      (some (text "busy"))
      (change_body none none (text "h") 9 (text "usr_1"))
      household
    ≡ returned (commit_password (some (text "busy")) (text "h") 9 (text "usr_1") household)
tx-commit_password_example =
    tx-commit_password none none none (some (text "busy")) (text "h") 9 (text "usr_1") household
