-- ===== src/Tests/Logins.antt =====
-- Setup, Login and ChangePassword on concrete libraries: the key derivation cuts or fills the
-- password, and an encoded byte is shifted past the separator.
use manualbox.Prelude.{
  ◌++◌, ℕ, ◌+◌, ◌-◌, ◌*◌, ◌<◌, ◌≡◌, ◌⊎◌, refl, sym, ap, ◌∙◌, Bool, true, false, Option, none, some,
  [], ◌∷◌, ok, err, arith,
}
use manualbox.Prelude.Text.{Text, text, text_eq, text_eq_refl}
use manualbox.Prelude.Lists.{length, find_where}
use manualbox.Clock.{millis, second}
use manualbox.Auth.{Session, user_from_row, authenticate, commit_password}
use manualbox.Auth.Tables.{UserRow, Accounts, has_user_id}
use manualbox.Auth.Passwords.{
  HashParams, HashError, IsField, params_text, Argon, hash_password, verify_password, encode_hash,
  current_params, derive, argon_key_len, argon_salt_len, decode_hash, decode_parts, decode_params,
  decode_tail, split_at,
}
use manualbox.Auth.Hashing.{verify_password-hash_password}
use manualbox.Auth.Setup.{
  Texts, normalize_email, validate_password, needs_setup, SetupCall, setup, get_user_by_id,
}
use manualbox.Auth.Login.{
  LoginCall, login, ChangeCall, change_password, change_user_password, replace_password,
}
use manualbox.Auth.Keeping.{SameUser}
use manualbox.Auth.Access.{named_user, IsGranted, login-authenticate}
use manualbox.Auth.Entry.{IsOpen, setup-login}
use manualbox.Auth.Renewal.{change_password-verify}
use manualbox.Tests.Codecs.{fit, length-fit}
use manualbox.Tests.Stores.{counting}
use manualbox.Tests.Auths.{login_call, request, owner}

abbrev pub shift : Text → Text
shift [] = []
shift (b ∷ bs) = (b + 37) ∷ shift bs

abbrev pub unshift : Text → Text
unshift [] = []
unshift (b ∷ bs) = (b - 37) ∷ unshift bs

pub shifted : (n : ℕ) → n + 37 - 37 ≡ n
shifted n = omega arith

pub unshift-shift : (b : Text) → unshift (shift b) ≡ b
unshift-shift [] = refl
unshift-shift (b ∷ bs) = rw (shifted b) (ap (λ x. b ∷ x) (unshift-shift bs))

pub shift-IsField : (b : Text) → IsField (shift b)
shift-IsField [] = tt
shift-IsField (b ∷ bs) = (ground arith, shift-IsField bs)

abbrev pub digits : ℕ → Text
digits n = (n + 37) ∷ []

pub digits-IsField : (n : ℕ) → IsField (digits n)
digits-IsField n = (ground arith, tt)

abbrev pub scan_version : Text → Option ℕ
scan_version (a ∷ b ∷ n ∷ []) = some (n - 37)
scan_version t = none

abbrev pub scan_params : Text → Option HashParams
scan_params (a0 ∷ a1 ∷ m ∷ b0 ∷ b1 ∷ b2 ∷ t ∷ c0 ∷ c1 ∷ c2 ∷ p ∷ []) =
    some (record { memory = m - 37; time = t - 37; parallelism = p - 37 })
scan_params t = none

pub scan_params-digits : (p : HashParams) → scan_params (params_text digits p) ≡ some p
scan_params-digits p = rw (shifted p.memory) (rw (shifted p.time) (rw (shifted p.parallelism) refl))

abbrev pub shifts : Argon
shifts = record {
  id_key = λ p s t m l n. fit n p;
  id_key_size = λ p s t m l n. length-fit n p;
  encode = shift;
  decode = λ b. some (unshift b);
  decode-encode = λ b. ap some (unshift-shift b);
  encode-IsField = shift-IsField;
  digits = digits;
  digits-IsField = digits-IsField;
  scan_version = scan_version;
  scan_version-digits = λ n h. ap some (shifted n);
  scan_params = scan_params;
  scan_params-digits = λ p h k l. scan_params-digits p;
}

abbrev pub plain_texts : Texts
plain_texts = record {
  trim_space = λ t. t;
  to_lower = λ t. t;
  parse_address = λ t. some t;
  rune_count = length;
  rune_count_empty = refl;
}

abbrev pub salt16 : Text
salt16 = text "sixteen byte sal"

abbrev pub first_password : Text
first_password = text "correct horse"

abbrev pub first_hash : Text
first_hash =
    encode_hash shifts (current_params 2) salt16
      (derive shifts first_password salt16 (current_params 2) argon_key_len)

hashed : hash_password shifts 2 (some salt16) first_password ≡ ok first_hash
unfolding hash_password text_eq
hashed = refl

abbrev nobody : Accounts
nobody = record { users = []; sessions = [] }

abbrev pub setup_call : SetupCall
setup_call = record {
  id = text "usr_1";
  now = second;
  cpus = 2;
  salt = some salt16;
  count_fault = none;
  meanwhile = λ a. a;
  create_fault = none;
  refusal = text "UNIQUE constraint failed";
}

-- The renewal of the hash and the record of the login fail.
abbrev pub first_login : LoginCall
first_login = record {
  find_fault = none;
  cpus = 2;
  salt = none;
  rehash_now = 5 * second;
  rehash_fault = some (text "busy");
  draw_fails = false;
  session = login_call;
  touch_now = 5 * second;
  touch_fault = some (text "busy");
}

abbrev pub mail : Text
mail = text "a@b.c"

IsOpen-instance : IsOpen plain_texts shifts setup_call mail first_password mail salt16 nobody
unfolding normalize_email validate_password text_eq find_where
IsOpen-instance = record {
  parsed = refl;
  strong = refl;
  calm = refl;
  calm' = refl;
  drawn = refl;
  full = refl;
  empty = refl;
  fresh = refl;
}

granted : IsGranted counting first_login nobody
unfolding text_eq find_where
granted = record { drawn = refl; calm = refl; named = refl; fresh = refl }

soon : millis (7 * second) < millis (5 * second + 60 * second)
unfolding millis
soon = omega arith

setup-login_example :
    (r : UserRow) × (a' a'' : Accounts) × (w : UserRow) × (found : Session) × (setup plain_texts
        shifts setup_call mail first_password
        (text "a")
        nobody
      ≡ (a', ok (user_from_row r)))
    × (r.role ≡ text "admin")
    × (a'.users ≡ nobody.users ++ r ∷ [])
    × (a'.sessions ≡ nobody.sessions)
    × (needs_setup none a' ≡ ok false)
    × (login plain_texts shifts counting (60 * second) first_login mail first_password [] [] a'
        ≡ (a'', ok (login_call.token, user_from_row r)))
    × ((authenticate counting (60 * second) request login_call.token a'').1
        ≡ ok (user_from_row w, found))
    × (w.id ≡ r.id)
    × (w.role ≡ r.role)
setup-login_example =
    setup-login plain_texts shifts setup_call mail first_password mail salt16 (text "a") nobody
      counting (60 * second) first_login request mail [] [] IsOpen-instance refl refl granted refl
      soon

abbrev pub member : UserRow
member = record owner { password_hash = first_hash }

abbrev pub household : Accounts
household = record { users = member ∷ []; sessions = [] }

named_member :
    named_user plain_texts shifts counting (60 * second) first_login mail household ≡ some member
unfolding find_where text_eq
named_member = refl

known_member : find_where (has_user_id (text "usr_1")) (member ∷ []) ≡ some member
unfolding find_where text_eq
known_member = refl

member_verified : verify_password shifts first_hash first_password ≡ ok (true, false)
member_verified =
    verify_password-hash_password shifts 2 salt16 first_password first_password first_hash refl
      hashed
    ∙ ap (λ (b : Bool). ok (b, false))
        (text_eq_refl (derive shifts first_password salt16 (current_params 2) argon_key_len))

IsGranted-household : IsGranted counting first_login household
unfolding text_eq find_where
IsGranted-household = record { drawn = refl; calm = refl; named = refl; fresh = refl }

login-authenticate_example :
    (a' : Accounts) × (w : UserRow) × (found : Session) × (login plain_texts shifts counting
        (60 * second)
        first_login
        mail
        first_password
        []
        []
        household
      ≡ (a', ok (login_call.token, user_from_row member)))
    × ((authenticate counting (60 * second) request login_call.token a').1
        ≡ ok (user_from_row w, found))
    × SameUser member w
    × (found.id ≡ login_call.id)
    × (found.user_id ≡ member.id)
login-authenticate_example =
    login-authenticate plain_texts shifts counting (60 * second) first_login request mail
      first_password [] [] household member false refl named_member known_member member_verified
      IsGranted-household refl soon

pub not_there :
    (u : UserRow)
    → named_user plain_texts shifts counting (60 * second) first_login (text "x@b.c") household
      ≡ some u
    → ((e : HashError) × (verify_password shifts u.password_hash first_password ≡ err e))
      ⊎ ((stale : Bool) × (verify_password shifts u.password_hash first_password
            ≡ ok (false, stale)))
unfolding find_where text_eq
not_there u e = cc

abbrev pub change_call : ChangeCall
change_call = record {
  find_fault = none;
  cpus = 2;
  salt = some salt16;
  now = 8 * second;
  commit_fault = none;
}

salt_full : (s : Text) → change_call.salt ≡ some s → length s ≡ argon_salt_len
salt_full s e = let q : salt16 ≡ s = cc in sym (ap length q)

changed :
    change_password plain_texts shifts change_call
      (text "usr_1")
      first_password
      (text "battery staple")
      household
    ≡ (
      (change_password plain_texts shifts change_call
          (text "usr_1")
          first_password
          (text "battery staple")
          household).0,
      none,
    )
unfolding change_password change_user_password replace_password validate_password get_user_by_id
    find_where verify_password decode_hash decode_parts decode_params decode_tail hash_password
    encode_hash split_at commit_password text_eq
changed = refl

change_password-verify_example :
    (u : UserRow) × (hash : Text) × (stale : Bool) × (find_where
        (has_user_id (text "usr_1"))
        household.users
      ≡ some u)
    × (verify_password shifts u.password_hash first_password ≡ ok (true, stale))
    × (verify_password shifts hash (text "battery staple") ≡ ok (true, false))
    × ((change_password plain_texts shifts change_call
          (text "usr_1")
          first_password
          (text "battery staple")
          household).0
        ≡ (commit_password none hash (8 * second) (text "usr_1") household).0)
change_password-verify_example =
    change_password-verify plain_texts shifts change_call (text "usr_1") first_password
      (text "battery staple") household
      (change_password plain_texts shifts change_call (text "usr_1") first_password
        (text "battery staple") household).0
      salt_full changed
