-- ===== src/Auth/Sessions.antt =====
-- Authenticate of internal/auth/auth.go after the other operations on sessions.
use manualbox.Prelude.{
  ℕ, ◌+◌, ◌≡◌, ◌≢◌, ◌≤◌, ◌<◌, refl, sym, ap, ◌∙◌, true, false, ◌||◌, not, none, some, List, [], ◌∷◌,
  ◌++◌, arith, Result, ok, err, leb, Bool-cases, Option-cases, ◌⊎◌, inl, inr,
}
use manualbox.Prelude.Text.{Text, text_eq, text_eq_iff, text_eq_refl}
use manualbox.Prelude.Lists.{
  keep, find_where, find_where-keep, find_where-keep-none, find_where-append, find_where-weaken,
}
use manualbox.Clock.{Instant, millis, millis_mono}
use manualbox.Store.{Sha256}
use manualbox.Auth.{
  User, Session, user_from_row, session_from_row, AuthError, no_session, CreateCall, create_session,
  AuthCall, authenticate, logout, sweep_expired_sessions, commit_password, truncate,
}
use manualbox.Auth.Tables.{
  UserRow, SessionRow, Accounts, has_user_id, has_token, is_live, get_session_by_token,
}
use manualbox.Auth.Lookups.{
  get_absent, get_found, get_no_user, get_same, find_where_kept, insert_session_ok,
  authenticate_same, slide_user, authenticate_found, authenticate_absent,
}

module _ (h : Sha256) (ttl : ℕ) where
  -- After a logout without a fault of the database, Authenticate refuses the token at every time at
  -- which its own lookup meets no fault, and changes nothing.
  pub logout-authenticate :
      (c : AuthCall) (token : Text) (a : Accounts)
      → c.find_fault ≡ none
      → (a' : Accounts) × (logout h none token a ≡ (a', none))
        × (a'.users ≡ a.users)
        × (authenticate h ttl c token a' ≡ (a', err no_session))
  unfolding logout
  logout-authenticate c token a calm = elim (Bool-cases (text_eq token [])) [
    | inl empty ↦ (a, rw (empty, logout), refl, unfold authenticate in rw (empty, authenticate))
    | inr named ↦
        let kept : List SessionRow = keep (λ s. not (has_token (h.sum token) s)) a.sessions in
        let gone : find_where (is_live (h.sum token) (millis c.now)) kept ≡ none =
          find_where-keep-none (is_live (h.sum token) (millis c.now))
            (λ s. not (has_token (h.sum token) s)) a.sessions (λ s live. ground arith) in
        (
          record a { sessions = kept },
          rw (named, logout),
          refl,
          authenticate_absent h ttl c token (record a { sessions = kept })
              (get_absent c.find_fault (h.sum token) (millis c.now) (record a { sessions = kept })
                calm gone),
        )
  ]

  -- Without faults of the insertion and of the lookup, a session with a new id and a new, nonempty
  -- token that createSession makes for a known user is found by that token until a `ttl` after it
  -- was made, in milliseconds: Authenticate then returns that user and that session, also where
  -- extending the session fails.
  pub create_session-authenticate :
      (c : CreateCall) (later : AuthCall) (agent ip : Text) (a : Accounts) (u : UserRow)
      → c.fault ≡ none
      → later.find_fault ≡ none
      → text_eq c.token [] ≡ false
      → find_where (λ r. text_eq r.id c.id || has_token (h.sum c.token) r) a.sessions ≡ none
      → find_where (has_user_id u.id) a.users ≡ some u
      → millis later.now < millis (c.now + ttl)
      → (a' : Accounts) × (made found : Session) × (create_session h ttl c u.id agent ip a
          ≡ (a', ok (c.token, made)))
        × ((authenticate h ttl later c.token a').1 ≡ ok (user_from_row u, found))
        × (found.id ≡ made.id)
        × (found.user_id ≡ u.id)
  unfolding create_session
  create_session-authenticate c later agent ip a u calm calm' named fresh known soon =
      let s : SessionRow = record {
        id = c.id;
        user_id = u.id;
        token_hash = h.sum c.token;
        user_agent = truncate agent 512;
        ip = ip;
        created_at = millis c.now;
        last_seen_at = millis c.now;
        expires_at = millis (c.now + ttl);
      } in
      let a' : Accounts = record a { sessions = a.sessions ++ s ∷ [] } in
      let others : find_where (is_live (h.sum c.token) (millis later.now)) a.sessions ≡ none =
        find_where-weaken (λ r. text_eq r.id c.id || has_token (h.sum c.token) r)
          (is_live (h.sum c.token) (millis later.now)) a.sessions (λ r live. ground arith) fresh in
      let live : is_live (h.sum c.token) (millis later.now) s ≡ true =
        ground (arith, text_eq_refl (h.sum c.token), soon) in
      let looked : get_session_by_token later.find_fault (h.sum c.token) (millis later.now) a'
          ≡ ok (s, u) =
        get_found later.find_fault (h.sum c.token) (millis later.now) a' s u calm'
          (find_where-append (is_live (h.sum c.token) (millis later.now)) a.sessions s others live)
          known in
      let (sess, slid, i, j) = slide_user h ttl later s u a' in
      (
        a',
        session_from_row s,
        sess,
        rw (insert_session_ok c.refusal c.fault s a u calm fresh known, create_session),
        ap (λ (x : Accounts × Result AuthError (User × Session)). x.1)
              (authenticate_found h ttl later c.token a' s u named looked)
            ∙ slid,
        i ∙ unfold session_from_row in refl,
        j,
      )

  -- A sweep is not seen: at its time and later, Authenticate, if its lookup meets no fault, says the
  -- same of every token as without the sweep.
  pub sweep-authenticate :
      (c : AuthCall) (now : Instant) (token : Text) (a : Accounts)
      → c.find_fault ≡ none
      → now ≤ c.now
      → (authenticate h ttl c token (sweep_expired_sessions none now a).0).1
        ≡ (authenticate h ttl c token a).1
  unfolding sweep_expired_sessions
  sweep-authenticate c now token a calm past =
      let kept : List SessionRow = keep (λ s. not (leb s.expires_at (millis now))) a.sessions in
      let order : millis now ≤ millis c.now = millis_mono now c.now past in
      let same : find_where (is_live (h.sum token) (millis c.now)) kept
          ≡ find_where (is_live (h.sum token) (millis c.now)) a.sessions =
        find_where-keep (is_live (h.sum token) (millis c.now))
          (λ s. not (leb s.expires_at (millis now))) a.sessions (λ s live. ground (arith, order)) in
      authenticate_same h ttl c token (record a { sessions = kept }) a
        (get_same c.find_fault (h.sum token) (millis c.now) (record a { sessions = kept }) a calm
          refl same)

  -- After the committed transaction of a change of password, Authenticate, if its lookup meets no
  -- fault, refuses every token or accepts it for a session that is not one of that user.
  pub commit_password-authenticate :
      (c : AuthCall) (hash : Text) (now : Instant) (i token : Text) (a : Accounts)
      → c.find_fault ≡ none
      → ((authenticate h ttl c token (commit_password none hash now i a).0).1 ≡ err no_session)
        ⊎ ((u : User) × (sess : Session) × ((authenticate h ttl c token
                (commit_password none hash now i a).0).1
              ≡ ok (u, sess))
            × (sess.user_id ≢ i))
  unfolding commit_password
  commit_password-authenticate c hash now i token a calm =
      let b : Accounts = (commit_password none hash now i a).0 in
      elim (Bool-cases (text_eq token [])) [
        | inl empty ↦ inl (unfold authenticate in rw (empty, authenticate))
        | inr named ↦
            elim (Option-cases (find_where (is_live (h.sum token) (millis c.now)) b.sessions)) [
              | inl gone ↦ inl (
                  ap (λ (x : Accounts × Result AuthError (User × Session)). x.1)
                    (authenticate_absent h ttl c token b
                      (get_absent c.find_fault (h.sum token) (millis c.now) b calm gone)))
              | inr (s, found) ↦ elim (Option-cases (find_where (has_user_id s.user_id) b.users)) [
                | inl alone ↦ inl (
                    ap (λ (x : Accounts × Result AuthError (User × Session)). x.1)
                      (authenticate_absent h ttl c token b (
                        get_no_user c.find_fault (h.sum token) (millis c.now) b s calm found
                          alone)))
                | inr (u, known) ↦
                    let (sess, slid, _, owner) = slide_user h ttl c s u b in
                    let kept : not (text_eq s.user_id i) ≡ true =
                      find_where_kept (is_live (h.sum token) (millis c.now))
                        (λ r. not (text_eq r.user_id i)) a.sessions s found in
                    inr (
                      user_from_row u,
                      sess,
                      ap (λ (x : Accounts × Result AuthError (User × Session)). x.1)
                            (authenticate_found h ttl c token b s u named (
                              get_found c.find_fault (h.sum token) (millis c.now) b s u calm found
                                known))
                          ∙ slid,
                      λ same.
                          let hit : text_eq s.user_id i ≡ true =
                            (text_eq_iff s.user_id i).1 (sym owner ∙ same) in
                          ground arith,
                    )
              ]
            ]
      ]
