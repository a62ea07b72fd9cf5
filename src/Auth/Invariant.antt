-- ===== src/Auth/Invariant.antt =====
-- The invariant of the tables users and sessions, which the schema of
-- internal/db/migrations/00001_init.sql promises.
use manualbox.Prelude.{
  ◌≡◌, refl, ◌∙◌, Bool, true, false, not, ◌||◌, Option, none, some, List, [], ◌∷◌, ◌++◌, leb,
  Bool-cases, Option-cases, inl, inr, arith,
}
use manualbox.Prelude.Text.{Text, text_eq, text_eq_iff}
use manualbox.Prelude.Lists.{All, All-append, All-keep, keep, find_where, map_where}
use manualbox.Prelude.Distinct.{distinct, distinct-keep, distinct-append, distinct-map_where}
use manualbox.Clock.{millis}
use manualbox.Auth.{sweep_expired_sessions}
use manualbox.Auth.Tables.{
  UserRow, SessionRow, Accounts, has_user_id, has_token, insert_session, extended, extend_session,
}
use manualbox.Auth.Setup.{has_email, create_user, update_user_password, touch_user_login}
use manualbox.Auth.Statements.{
  delete_sessions, delete_session, delete_user_sessions, touch_session, delete_user, Statement,
  add_user, set_password, touch_user, remove_user, add_session, extend, touch, drop_session,
  drop_token, drop_user_sessions, sweep, after, exec, run,
}

-- Users with one id or one folded email, and sessions with one id or one token.
abbrev pub same_user : UserRow → UserRow → Bool
same_user u v = has_user_id v.id u || has_email v.email_folded u

abbrev pub same_session : SessionRow → SessionRow → Bool
same_session s r = text_eq s.id r.id || has_token r.token_hash s

unfoldable pub is_known : List UserRow → Text → Bool
is_known [] i = false
is_known (u ∷ us) i = has_user_id i u || is_known us i

-- Ids and emails of users and ids and tokens of sessions are unique, and every session has its user.
pub record IsSound (a : Accounts) : Type 0 where
  pub users_differ : distinct same_user a.users ≡ true
  pub sessions_differ : distinct same_session a.sessions ≡ true
  pub linked : All (λ s. is_known a.users s.user_id ≡ true) a.sessions

is_known-append :
    (u : UserRow) (us : List UserRow) (i : Text)
    → is_known us i ≡ true
    → is_known (us ++ u ∷ []) i ≡ true
unfolding is_known
is_known-append u [] i h = cc
is_known-append u (v ∷ us) i h = ground (arith, is_known-append u us i)

is_known-keep :
    (j : Text) (us : List UserRow) (i : Text)
    → is_known us i ≡ true
    → text_eq i j ≡ false
    → is_known (keep (λ u. not (has_user_id j u)) us) i ≡ true
unfolding is_known keep
is_known-keep j [] i h k = cc
is_known-keep j (u ∷ us) i h k =
    ground (arith, text_eq_iff u.id i, text_eq_iff u.id j, text_eq_iff i j, is_known-keep j us i)

is_known-map_where :
    (p : UserRow → Bool) (f : UserRow → UserRow) (us : List UserRow) (i : Text)
    → ((u : UserRow) → (f u).id ≡ u.id)
    → is_known (map_where p f us) i ≡ is_known us i
unfolding is_known map_where
is_known-map_where p f [] i k = refl
is_known-map_where p f (u ∷ us) i k = ground (arith, k u, is_known-map_where p f us i k)

is_known-found :
    (us : List UserRow) (i : Text) (u : UserRow)
    → find_where (has_user_id i) us ≡ some u
    → is_known us i ≡ true
unfolding is_known find_where
is_known-found [] i u h = cc
is_known-found (v ∷ us) i u h = ground (arith, is_known-found us i u)

All-map {ℓ} :
    {A : Type ℓ} (P Q : A → Type 0) (xs : List A) → ((x : A) → P x → Q x) → All P xs → All Q xs
All-map P Q [] k a = tt
All-map P Q (x ∷ xs) k a = (k x a.0, All-map P Q xs k a.1)

-- A change of users that keeps id and email.
module _ (a : Accounts) (p : UserRow → Bool) (f : UserRow → UserRow) (v : IsSound a) where
  users-IsSound :
      ((u : UserRow) → (f u).id ≡ u.id)
      → ((u : UserRow) → (f u).email_folded ≡ u.email_folded)
      → IsSound (record a { users = map_where p f a.users })
  users-IsSound i e = record {
    users_differ =
        distinct-map_where same_user p f (λ u w. ground (arith, i u, i w, e u, e w)) a.users
        ∙ v.users_differ;
    sessions_differ = v.sessions_differ;
    linked =
        All-map _ _ a.sessions (λ s known. is_known-map_where p f a.users s.user_id i ∙ known)
          v.linked;
  }

-- A change of sessions that keeps id, token and user.
linked-map_where :
    (us : List UserRow) (p : SessionRow → Bool) (f : SessionRow → SessionRow) (ss : List SessionRow)
    → ((s : SessionRow) → (f s).user_id ≡ s.user_id)
    → All (λ s. is_known us s.user_id ≡ true) ss
    → All (λ s. is_known us s.user_id ≡ true) (map_where p f ss)
unfolding map_where
linked-map_where us p f [] k a = tt
linked-map_where us p f (s ∷ ss) k a = (ground (arith, k s, a.0), linked-map_where us p f ss k a.1)

module _ (a : Accounts) (p : SessionRow → Bool) (v : IsSound a) where
  sessions-IsSound :
      (f : SessionRow → SessionRow)
      → ((s : SessionRow) → (f s).id ≡ s.id)
      → ((s : SessionRow) → (f s).token_hash ≡ s.token_hash)
      → ((s : SessionRow) → (f s).user_id ≡ s.user_id)
      → IsSound (record a { sessions = map_where p f a.sessions })
  sessions-IsSound f i t u = record {
    users_differ = v.users_differ;
    sessions_differ =
        distinct-map_where same_session p f (λ s r. ground (arith, i s, i r, t s, t r)) a.sessions
        ∙ v.sessions_differ;
    linked = linked-map_where a.users p f a.sessions u v.linked;
  }

  delete_sessions-IsSound : (fault : Option Text) → IsSound (delete_sessions p fault a).0
  unfolding delete_sessions
  delete_sessions-IsSound (some m) = v
  delete_sessions-IsSound none = record {
    users_differ = v.users_differ;
    sessions_differ = distinct-keep same_session (λ s. not (p s)) a.sessions v.sessions_differ;
    linked = All-keep _ (λ s. not (p s)) a.sessions v.linked;
  }

linked-keep :
    (j : Text) (us : List UserRow) (ss : List SessionRow)
    → All (λ s. is_known us s.user_id ≡ true) ss
    → All
        (λ s. is_known (keep (λ u. not (has_user_id j u)) us) s.user_id ≡ true)
        (keep (λ s. not (text_eq s.user_id j)) ss)
unfolding keep
linked-keep j us [] a = tt
linked-keep j us (s ∷ ss) a = elim (Bool-cases (text_eq s.user_id j)) [
  | inl e ↦ rw e (linked-keep j us ss a.1)
  | inr e ↦ rw e (is_known-keep j us s.user_id a.0 e, linked-keep j us ss a.1)
]

delete_user-IsSound :
    (fault : Option Text) (i : Text) (a : Accounts) → IsSound a → IsSound (delete_user fault i a).0
unfolding delete_user
delete_user-IsSound (some m) i a v = v
delete_user-IsSound none i a v = record {
  users_differ = distinct-keep same_user (λ u. not (has_user_id i u)) a.users v.users_differ;
  sessions_differ =
      distinct-keep same_session (λ s. not (text_eq s.user_id i)) a.sessions v.sessions_differ;
  linked = linked-keep i a.users a.sessions v.linked;
}

create_user-IsSound :
    (refusal : Text) (fault : Option Text) (u : UserRow) (a : Accounts)
    → IsSound a
    → IsSound (after a (create_user refusal fault u a))
unfolding create_user
create_user-IsSound refusal (some m) u a v = v
create_user-IsSound refusal none u a v =
    elim (Option-cases (find_where (λ x. same_user x u) a.users)) [
      | inr (x, e) ↦ rw (e, create_user) v
      | inl e ↦
          rw (e, create_user)
            (record {
              users_differ = distinct-append same_user u a.users v.users_differ e;
              sessions_differ = v.sessions_differ;
              linked =
                  All-map _ _ a.sessions (λ s known. is_known-append u a.users s.user_id known)
                    v.linked;
            })
    ]

insert_session-IsSound :
    (refusal : Text) (fault : Option Text) (s : SessionRow) (a : Accounts)
    → IsSound a
    → IsSound (after a (insert_session refusal fault s a))
unfolding insert_session
insert_session-IsSound refusal (some m) s a v = v
insert_session-IsSound refusal none s a v =
    elim (Option-cases (find_where (λ r. same_session r s) a.sessions)) [
      | inr (r, e) ↦ rw (e, insert_session) v
      | inl e ↦ elim (Option-cases (find_where (has_user_id s.user_id) a.users)) [
        | inl k ↦ rw (e, insert_session) (rw (k, insert_session) v)
        | inr (u, k) ↦
            rw (e, insert_session)
              (rw (k, insert_session)
                (record {
                  users_differ = v.users_differ;
                  sessions_differ = distinct-append same_session s a.sessions v.sessions_differ e;
                  linked =
                      All-append _ a.sessions (s ∷ []) v.linked
                        (is_known-found a.users s.user_id u k, tt);
                }))
      ]
    ]

exec-IsSound :
    (fault : Option Text) (st : Statement) (a : Accounts) → IsSound a → IsSound (exec fault st a)
unfolding exec update_user_password touch_user_login extend_session extended delete_session
    delete_user_sessions touch_session delete_sessions sweep_expired_sessions
exec-IsSound fault (add_user refusal u) a v = create_user-IsSound refusal fault u a v
exec-IsSound none (set_password hash now i) a v =
    users-IsSound a (has_user_id i) _ v (λ u. refl) (λ u. refl)
exec-IsSound (some m) (set_password hash now i) a v = v
exec-IsSound none (touch_user now i) a v =
    users-IsSound a (has_user_id i) _ v (λ u. refl) (λ u. refl)
exec-IsSound (some m) (touch_user now i) a v = v
exec-IsSound fault (remove_user i) a v = delete_user-IsSound fault i a v
exec-IsSound fault (add_session refusal s) a v = insert_session-IsSound refusal fault s a v
exec-IsSound none (extend seen expires i) a v =
    sessions-IsSound a (λ s. text_eq s.id i) v (extended seen expires) (λ s. refl) (λ s. refl)
      (λ s. refl)
exec-IsSound (some m) (extend seen expires i) a v = v
exec-IsSound none (touch now i) a v =
    sessions-IsSound a (λ s. text_eq s.id i) v _ (λ s. refl) (λ s. refl) (λ s. refl)
exec-IsSound (some m) (touch now i) a v = v
exec-IsSound fault (drop_session i) a v = delete_sessions-IsSound a _ v fault
exec-IsSound fault (drop_token hash) a v = delete_sessions-IsSound a _ v fault
exec-IsSound fault (drop_user_sessions i) a v = delete_sessions-IsSound a _ v fault
exec-IsSound none (sweep now) a v =
    delete_sessions-IsSound a (λ s. leb s.expires_at (millis now)) v none
exec-IsSound (some m) (sweep now) a v = v

-- Whatever statements are run on the tables one after the other, in any order and with any failures
-- among them: ids and folded emails of users stay unique, so do ids and token hashes of sessions, and
-- each session keeps belonging to a user of the table, if all this holds before.
pub run-IsSound :
    (ss : List (Option Text × Statement)) (a : Accounts) → IsSound a → IsSound (run ss a)
unfolding run
run-IsSound [] a v = v
run-IsSound ((fault, s) ∷ ss) a v = run-IsSound ss (exec fault s a) (exec-IsSound fault s a v)
