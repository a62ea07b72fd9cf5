-- ===== src/Auth/Entry.antt =====
-- What Setup, Login and ChangePassword of internal/auth/auth.go leave, and what Authenticate and
-- VerifyPassword say after them.
use manualbox.Prelude.{
  ℕ, ◌+◌, ◌≡◌, ◌≢◌, ◌<◌, refl, sym, ap, ◌∙◌, Bool, true, false, ◌||◌, Option, none, some, List, [],
  ◌∷◌, ◌++◌, ok, err, Bool-cases, Option-cases, Result-cases, inl, inr, arith, ◌==◌,
}
use manualbox.Prelude.Text.{Text, text, text_eq, text_eq_iff, text_eq_refl}
use manualbox.Prelude.Lists.{
  length, length-append, find_where, find_where-append, find_where-weaken,
}
use manualbox.Clock.{millis}
use manualbox.Jobs.Model.{driver_error}
use manualbox.Store.{Sha256}
use manualbox.Auth.{Session, user_from_row, database, AuthCall, authenticate}
use manualbox.Auth.Tables.{UserRow, SessionRow, Accounts, has_user_id, has_token}
use manualbox.Auth.Passwords.{
  Argon, hash_password, verify_password, encode_hash, current_params, derive, argon_key_len,
  argon_salt_len,
}
use manualbox.Auth.Hashing.{verify_password-hash_password}
use manualbox.Auth.Setup.{
  Texts, LoginError, setup_complete, failed, normalize_email, validate_password, weak_password,
  count_users, has_email, create_user, needs_setup, SetupCall, first_user, add_first_user, setup,
}
use manualbox.Auth.Login.{LoginCall, login}
use manualbox.Auth.Access.{named_user, IsGranted, login-authenticate}

module _ (t : Texts) (g : Argon) where
  -- On an instance that has a user, Setup returns an error and changes nothing, whatever it is given
  -- and whatever fails.
  pub setup_refused :
      (c : SetupCall) (email password name : Text) (a : Accounts)
      → length a.users ≢ 0
      → (e : LoginError) × (setup t g c email password name a ≡ (a, err e))
  unfolding setup needs_setup count_users
  setup_refused c email password name a h = elim (Result-cases (normalize_email t email)) [
    | inl (e, q) ↦ (e, rw (q, setup) refl)
    | inr (address, q) ↦ elim (Option-cases (validate_password t password)) [
      | inr (e, r) ↦ (e, rw (q, setup) (rw r refl))
      | inl r ↦ elim (Option-cases c.count_fault) [
        | inr (m, s) ↦ (
          failed (database (driver_error m)),
          rw (q, setup) (rw r (rw (s, needs_setup, count_users) refl)),
        )
        | inl s ↦
            let known : (length a.users == 0) ≡ false = ground arith in
            (
              setup_complete,
              rw (q, setup) (rw r (rw (s, needs_setup, count_users) (rw known refl))),
            )
      ]
    ]
  ]

  -- A password that ValidatePassword takes can be hashed with every salt.
  hash_password_ok :
      (cpus : ℕ) (salt password : Text)
      → validate_password t password ≡ none
      → (hash : Text) × (hash_password g cpus (some salt) password ≡ ok hash)
  unfolding hash_password
  hash_password_ok cpus salt password h =
      let named : text_eq password [] ≡ false = elim (Bool-cases (text_eq password [])) [
        | inr q ↦ q
        | inl q ↦
            let count : t.rune_count password ≡ 0 =
              ap t.rune_count ((text_eq_iff password []).0 q) ∙ t.rune_count_empty in
            let weak : validate_password t password ≡ some weak_password =
              unfold validate_password in rw (count, validate_password) refl in
            let bad : ◌≡◌ {A = Option LoginError} (some weak_password) none = sym weak ∙ h in cc
      ] in
      let p = current_params cpus in
      (
        encode_hash g p salt (derive g password salt p argon_key_len),
        rw (named, hash_password) refl,
      )

  -- The password that was hashed is accepted.
  pub verify_own :
      (cpus : ℕ) (salt password hash : Text)
      → length salt ≡ argon_salt_len
      → hash_password g cpus (some salt) password ≡ ok hash
      → verify_password g hash password ≡ ok (true, false)
  verify_own cpus salt password hash e q =
      verify_password-hash_password g cpus salt password password hash e q
      ∙ ap (λ (b : Bool). ok (b, false))
          (text_eq_refl (derive g password salt (current_params cpus) argon_key_len))

  -- Nothing that Setup needs fails, and no user that others add in the meantime has its id or email.
  pub record IsOpen (c : SetupCall) (email password address salt : Text) (a : Accounts)
      : Type 0 where
    pub parsed : normalize_email t email ≡ ok address
    pub strong : validate_password t password ≡ none
    pub calm : c.count_fault ≡ none
    pub calm' : c.create_fault ≡ none
    pub drawn : c.salt ≡ some salt
    pub full : length salt ≡ argon_salt_len
    pub empty : length a.users ≡ 0
    pub fresh :
        find_where
          (λ x. has_user_id c.id x || has_email (t.to_lower address) x)
          (c.meanwhile a).users
        ≡ none

  -- What Setup leaves.
  pub record IsSetUp (c : SetupCall) (email password address name : Text) (a a' : Accounts)
      (r : UserRow) : Type 0 where
    pub made : setup t g c email password name a ≡ (a', ok (user_from_row r))
    pub admin : r.role ≡ text "admin"
    pub users : a'.users ≡ (c.meanwhile a).users ++ r ∷ []
    pub sessions : a'.sessions ≡ (c.meanwhile a).sessions
    pub by_id : find_where (has_user_id r.id) a'.users ≡ some r
    pub by_email : find_where (has_email (t.to_lower address)) a'.users ≡ some r
    pub accepts : verify_password g r.password_hash password ≡ ok (true, false)

  needs_setup_empty :
      (fault : Option Text) (a : Accounts)
      → fault ≡ none
      → length a.users ≡ 0
      → needs_setup fault a ≡ ok true
  unfolding needs_setup count_users
  needs_setup_empty fault a calm e =
      let zero' : (length a.users == 0) ≡ true = ground arith in
      rw (calm, needs_setup, count_users) (ap ok zero')

  needs_setup_full :
      (a : Accounts) (r : UserRow) (us : List UserRow)
      → a.users ≡ us ++ r ∷ []
      → needs_setup none a ≡ ok false
  unfolding needs_setup count_users
  needs_setup_full a r us e =
      let some_user : (length a.users == 0) ≡ false =
        ground (arith, ap length e, length-append us (r ∷ [])) in
      ap ok some_user

  create_user_ok :
      (refusal : Text) (fault : Option Text) (u : UserRow) (a : Accounts)
      → fault ≡ none
      → find_where (λ x. has_user_id u.id x || has_email u.email_folded x) a.users ≡ none
      → create_user refusal fault u a ≡ ok (record a { users = a.users ++ u ∷ [] }, u)
  unfolding create_user
  create_user_ok refusal fault u a calm e = rw (calm, create_user) (rw e refl)

  setup_total :
      (c : SetupCall) (email password address salt name : Text) (a : Accounts)
      → IsOpen c email password address salt a
      → (a' : Accounts) × (r : UserRow) × IsSetUp c email password address name a a' r
  setup_total c email password address salt name a o =
      let (hash, q) = hash_password_ok c.cpus salt password o.strong in
      let r = first_user t c address name hash in
      let b = c.meanwhile a in
      let a' : Accounts = record b { users = b.users ++ r ∷ [] } in
      let test : UserRow → Bool = λ x. has_user_id c.id x || has_email (t.to_lower address) x in
      let hashed = ap (λ x. hash_password g c.cpus x password) o.drawn ∙ q in
      let inserted = create_user_ok c.refusal c.create_fault r b o.calm' o.fresh in
      let added : add_first_user t g c address password name b ≡ (a', ok (user_from_row r)) =
        unfold add_first_user in rw (hashed, add_first_user) (rw inserted refl) in
      let started : setup t g c email password name a
          ≡ add_first_user t g c address password name b =
        unfold setup in
        rw (o.parsed, setup)
          (rw o.strong (rw (needs_setup_empty c.count_fault a o.calm o.empty) refl)) in
      (
        a',
        r,
        record {
          made = started ∙ added;
          admin = refl;
          users = refl;
          sessions = refl;
          by_id =
              find_where-append (has_user_id c.id) b.users r
                (find_where-weaken test (has_user_id c.id) b.users (λ x e. ground arith) o.fresh)
                (text_eq_refl c.id);
          by_email =
              find_where-append (has_email (t.to_lower address)) b.users r
                (find_where-weaken test (has_email (t.to_lower address)) b.users
                  (λ x e. ground arith) o.fresh)
                (text_eq_refl (t.to_lower address));
          accepts = verify_own c.cpus salt password hash o.full q;
        },
      )

  -- Setup on an instance without users, when the address, the password, the random bytes and the
  -- database are good and no user that others added since its count has the new id or email, returns
  -- a user with the role "admin", whom it adds behind the users that others added, and leaves the
  -- sessions alone. From then on the instance is set up; Login with the same password and an email that folds to the
  -- address, when nothing fails in it and its session is new, then returns a token that
  -- Authenticate accepts for that user until a `ttl` after the session was made, in milliseconds.
  pub setup-login :
      (c : SetupCall) (email password address salt name : Text) (a : Accounts) (h : Sha256)
      (ttl : ℕ) (l : LoginCall) (later : AuthCall) (typed agent ip : Text)
      → IsOpen c email password address salt a
      → l.find_fault ≡ none
      → t.to_lower (t.trim_space typed) ≡ t.to_lower address
      → IsGranted h l (c.meanwhile a)
      → later.find_fault ≡ none
      → millis later.now < millis (l.session.now + ttl)
      → (r : UserRow) × (a' a'' : Accounts) × (w : UserRow) × (found : Session) × (setup t g c email
            password name a
          ≡ (a', ok (user_from_row r)))
        × (r.role ≡ text "admin")
        × (a'.users ≡ (c.meanwhile a).users ++ r ∷ [])
        × (a'.sessions ≡ (c.meanwhile a).sessions)
        × (needs_setup none a' ≡ ok false)
        × (login t g h ttl l typed password agent ip a'
            ≡ (a'', ok (l.session.token, user_from_row r)))
        × ((authenticate h ttl later l.session.token a'').1 ≡ ok (user_from_row w, found))
        × (w.id ≡ r.id)
        × (w.role ≡ r.role)
  setup-login c email password address salt name a h ttl l later typed agent ip o calm folds granted
        calm' soon =
      let (a', r, s) = setup_total c email password address salt name a o in
      let test =
        λ (x : SessionRow). text_eq x.id l.session.id || has_token (h.sum l.session.token) x in
      let granted' : IsGranted h l a' = record {
        drawn = granted.drawn;
        calm = granted.calm;
        named = granted.named;
        fresh = ap (find_where test) s.sessions ∙ granted.fresh;
      } in
      let named : named_user t g h ttl l typed a' ≡ some r =
        ap (λ (x : Text). find_where (has_email x) a'.users) folds ∙ s.by_email in
      let (a'', w, found, made, seen, same, i, j) =
        login-authenticate t g h ttl l later typed password agent ip a' r false calm named s.by_id
          s.accepts granted' calm' soon in
      (
        r,
        a',
        a'',
        w,
        found,
        s.made,
        s.admin,
        s.users,
        s.sessions,
        needs_setup_full a' r (c.meanwhile a).users s.users,
        made,
        seen,
        same.0,
        same.2,
      )
