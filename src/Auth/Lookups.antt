-- ===== src/Auth/Lookups.antt =====
-- The lookup of a session by its token, and Authenticate over it (internal/auth/auth.go).
use manualbox.Prelude.{
  ℕ, ◌+◌, ◌≡◌, refl, sym, ap, ◌∙◌, Bool, true, false, ◌||◌, Option, none, some, List, [], ◌∷◌, ◌++◌,
  arith, ok, err, Result-cases, ltb, Bool-cases, Option-cases, inl, inr,
}
use manualbox.Prelude.Text.{Text, text_eq}
use manualbox.Prelude.Lists.{keep, find_where}
use manualbox.Clock.{Stamp, millis, time}
use manualbox.Jobs.Model.{no_rows, driver_error}
use manualbox.Store.{Sha256}
use manualbox.Auth.{
  Session, user_from_row, session_from_row, no_session, extend_after, AuthCall, slide, authenticate,
}
use manualbox.Auth.Tables.{
  UserRow, SessionRow, Accounts, has_user_id, has_token, is_live, insert_session,
  get_session_by_token,
}

pub get_absent :
    (fault : Option Text) (hash : Text) (now : Stamp) (a : Accounts)
    → fault ≡ none
    → find_where (is_live hash now) a.sessions ≡ none
    → get_session_by_token fault hash now a ≡ err no_rows
unfolding get_session_by_token
get_absent fault hash now a calm e = rw (calm, get_session_by_token) (rw e)

pub get_found :
    (fault : Option Text) (hash : Text) (now : Stamp) (a : Accounts) (s : SessionRow) (u : UserRow)
    → fault ≡ none
    → find_where (is_live hash now) a.sessions ≡ some s
    → find_where (has_user_id s.user_id) a.users ≡ some u
    → get_session_by_token fault hash now a ≡ ok (s, u)
unfolding get_session_by_token
get_found fault hash now a s u calm e e' = rw (calm, get_session_by_token) (rw (e, e'))

pub get_no_user :
    (fault : Option Text) (hash : Text) (now : Stamp) (a : Accounts) (s : SessionRow)
    → fault ≡ none
    → find_where (is_live hash now) a.sessions ≡ some s
    → find_where (has_user_id s.user_id) a.users ≡ none
    → get_session_by_token fault hash now a ≡ err no_rows
unfolding get_session_by_token
get_no_user fault hash now a s calm e e' = rw (calm, get_session_by_token) (rw (e, e'))

pub get_same :
    (fault : Option Text) (hash : Text) (now : Stamp) (a b : Accounts)
    → fault ≡ none
    → a.users ≡ b.users
    → find_where (is_live hash now) a.sessions ≡ find_where (is_live hash now) b.sessions
    → get_session_by_token fault hash now a ≡ get_session_by_token fault hash now b
get_same fault hash now a b calm users same =
    elim (Option-cases (find_where (is_live hash now) b.sessions)) [
      | inl gone ↦
          get_absent fault hash now a calm (same ∙ gone)
          ∙ sym (get_absent fault hash now b calm gone)
      | inr (s, found) ↦ elim (Option-cases (find_where (has_user_id s.user_id) b.users)) [
        | inl alone ↦
            get_no_user fault hash now a s calm (same ∙ found)
              (ap (find_where (has_user_id s.user_id)) users ∙ alone)
            ∙ sym (get_no_user fault hash now b s calm found alone)
        | inr (u, known) ↦
            get_found fault hash now a s u calm (same ∙ found)
              (ap (find_where (has_user_id s.user_id)) users ∙ known)
            ∙ sym (get_found fault hash now b s u calm found known)
      ]
    ]

-- What a lookup finds among the elements kept was kept.
pub find_where_kept :
    {A : Type 0} (p q : A → Bool) (xs : List A) (x : A)
    → find_where p (keep q xs) ≡ some x
    → q x ≡ true
unfolding find_where keep
find_where_kept p q [] x h = cc
find_where_kept p q (y ∷ xs) x h = elim (Bool-cases (q y)) [
  | inr e ↦ find_where_kept p q xs x (ground (arith, e))
  | inl e ↦ elim (Bool-cases (p y)) [
    | inl e' ↦ let same : y ≡ x = ground arith in rw (sym same) e
    | inr e' ↦ find_where_kept p q xs x (ground (arith, e, e'))
  ]
]

pub insert_session_ok :
    (refusal : Text) (fault : Option Text) (s : SessionRow) (a : Accounts) (u : UserRow)
    → fault ≡ none
    → find_where (λ r. text_eq r.id s.id || has_token s.token_hash r) a.sessions ≡ none
    → find_where (has_user_id s.user_id) a.users ≡ some u
    → insert_session refusal fault s a ≡ ok (record a { sessions = a.sessions ++ s ∷ [] }, s)
unfolding insert_session
insert_session_ok refusal fault s a u calm e e' = rw (calm, insert_session) (rw (e, e'))

module _ (h : Sha256) (ttl : ℕ) where
  pub slide_same :
      (c : AuthCall) (s : SessionRow) (u : UserRow) (a b : Accounts)
      → (slide ttl c s u a).1 ≡ (slide ttl c s u b).1
  unfolding slide
  slide_same c s u a b =
      elim (Bool-cases (ltb ((session_from_row s).last_seen_at + extend_after) c.now)) [
        | inr e ↦ rw e
        | inl e ↦ elim (Option-cases c.extend_fault) [
          | inr (m, e') ↦ rw (e, e')
          | inl e' ↦ rw (e, e')
        ]
      ]

  -- Authenticate sees of the tables what the lookup sees.
  pub authenticate_same :
      (c : AuthCall) (token : Text) (a b : Accounts)
      → get_session_by_token c.find_fault (h.sum token) (millis c.now) a
        ≡ get_session_by_token c.find_fault (h.sum token) (millis c.now) b
      → (authenticate h ttl c token a).1 ≡ (authenticate h ttl c token b).1
  unfolding authenticate
  authenticate_same c token a b e = elim (Bool-cases (text_eq token [])) [
    | inl empty ↦ rw empty
    | inr named ↦
        elim (Result-cases (get_session_by_token c.find_fault (h.sum token) (millis c.now) b)) [
          | inr ((s, u), e') ↦ rw (named, e) (rw e' (slide_same c s u a b))
          | inl (no_rows, e') ↦ rw (named, e) (rw e')
          | inl (driver_error m, e') ↦ rw (named, e) (rw e')
        ]
  ]

  pub slide_user :
      (c : AuthCall) (s : SessionRow) (u : UserRow) (a : Accounts)
      → (sess : Session) × ((slide ttl c s u a).1 ≡ ok (user_from_row u, sess))
        × (sess.id ≡ s.id)
        × (sess.user_id ≡ s.user_id)
  unfolding slide
  slide_user c s u a =
      elim (Bool-cases (ltb ((session_from_row s).last_seen_at + extend_after) c.now)) [
        | inr e ↦ (
          session_from_row s,
          rw (e, slide),
          unfold session_from_row in refl,
          unfold session_from_row in refl,
        )
        | inl e ↦ elim (Option-cases c.extend_fault) [
          | inr (m, e') ↦ (
            session_from_row s,
            rw (e, slide) (rw e'),
            unfold session_from_row in refl,
            unfold session_from_row in refl,
          )
          | inl e' ↦ (
            record (session_from_row s) {
              last_seen_at = c.now;
              expires_at = time (millis (c.now + ttl));
            },
            rw (e, slide) (rw e'),
            unfold session_from_row in refl,
            unfold session_from_row in refl,
          )
        ]
      ]

  pub authenticate_found :
      (c : AuthCall) (token : Text) (a : Accounts) (s : SessionRow) (u : UserRow)
      → text_eq token [] ≡ false
      → get_session_by_token c.find_fault (h.sum token) (millis c.now) a ≡ ok (s, u)
      → authenticate h ttl c token a ≡ slide ttl c s u a
  unfolding authenticate
  authenticate_found c token a s u named e = rw (named, e, authenticate)

  pub authenticate_absent :
      (c : AuthCall) (token : Text) (a : Accounts)
      → get_session_by_token c.find_fault (h.sum token) (millis c.now) a ≡ err no_rows
      → authenticate h ttl c token a ≡ (a, err no_session)
  unfolding authenticate
  authenticate_absent c token a e = elim (Bool-cases (text_eq token [])) [
    | inl empty ↦ rw (empty, authenticate)
    | inr named ↦ rw (named, authenticate) (rw e)
  ]
