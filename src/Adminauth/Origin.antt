-- ===== src/Adminauth/Origin.antt =====
-- internal/adminauth/adminauth.go: over any run of requests, where an administrator's access comes
-- from, and that it ends with the session.
use boot_optim_distribution.Base.{
  int_eq, All, Exists, All-map, All-Exists, All-intro, Exists-map, delete, All-lookup, Bytes, codes,
  bytes_eq, ◌==◌, ◌!=◌, eq_iff, nat_eq, bool_eq, Bool-cases, ℕ, ◌+◌, ◌<◌, ◌≡◌, refl, sym, ap, ◌∙◌,
  ◌≢◌, inl, inr, true, false, Option, some, List, [], ◌∷◌, arith,
}
use boot_optim_distribution.Adminauth.Types.{
  role_admin, Session, Manager, Context, anonymous, Request, passed,
}
use boot_optim_distribution.Adminauth.Login.{encoded, logout_handler}
use boot_optim_distribution.Adminauth.Sessions.{context_of, authenticate, is_admin, require_admin}
use boot_optim_distribution.Adminauth.Routes.{
  Route, login, logout, write, route_handler, serve, serve_all,
}
use boot_optim_distribution.Adminauth.Guards.{
  IsGuarded, HasSession, serve-write_iff, HasSession-authenticate, authenticate-cases,
  IsGuarded-require_csrf,
}
use boot_optim_distribution.Adminauth.Holds.{IsLogin, Holds}
use boot_optim_distribution.Adminauth.Steps.{serve_all-Holds}

module _ (parse_url : Bytes → Option (Bytes × Bytes)) (encode : Bytes → Bytes)
    (hmac : Bytes → Bytes → Bytes) where
  -- A request of a run that logs in, and whose session is the administrator's for another while.
  abbrev pub LoggedIn : Manager → ℕ → Route × Request → Type 0
  LoggedIn m now (route, q) =
      (route ≡ login)
      × ((sess : Session) × IsLogin parse_url hmac m.username m.password_hash m.session_ttl q sess
          × (now < q.handled + m.session_ttl))

-- From a manager without sessions: whatever requests came, a request that then reaches a handler
-- behind `RequireAdmin(RequireCSRF(…))` does so less than the configured time after one of them logged
-- in, with the administrator's name, a password that verifies against the stored hash, and a login
-- form from no other origin whose token was also its cookie's.
pub serve_all-LoggedIn :
    (parse_url : Bytes → Option (Bytes × Bytes)) (encode : Bytes → Bytes)
    (hmac : Bytes → Bytes → Bytes) (m : Manager) (rs : List (Route × Request)) (r : Request)
    (ctx : Context)
    → m.sessions ≡ []
    → (serve parse_url encode hmac write (serve_all parse_url encode hmac m rs) r).0 ≡ passed ctx
    → Exists (LoggedIn parse_url encode hmac m r.arrived) rs
serve_all-LoggedIn parse_url encode hmac m rs r ctx fresh h =
    let a =
      (serve-write_iff parse_url encode hmac (serve_all parse_url encode hmac m rs) r ctx).0 h in
    let logs : Route × Request → Session → Type 0 = λ (route, q) sess.
      (route ≡ login) × IsLogin parse_url hmac m.username m.password_hash m.session_ttl q sess in
    let start : Holds parse_url hmac m.username m.password_hash m.session_ttl
        (λ (id, sess). Exists (λ entry. logs entry sess) rs) (λ drawn. Unit) m =
      record {
        same_username = refl;
        same_hash = refl;
        same_ttl = refl;
        of_sessions = rw fresh tt;
        of_random = All-intro (λ drawn. tt) m.random;
      } in
    let kept =
      serve_all-Holds parse_url hmac m.username m.password_hash m.session_ttl encode
        (λ (id, sess). Exists (λ entry. logs entry sess) rs) (λ drawn. Unit) rs m start
        (All-map (λ entry f id sess (at_login, l, _). f sess (at_login, l)) rs
          (All-Exists logs rs)) in
    let logged =
      All-lookup (λ (id, sess). Exists (λ entry. logs entry sess) rs) a.id _ a.sess kept.of_sessions
        a.session.stored in
    Exists-map
      (λ (route, q) (at_login, l).
        (at_login, (a.sess, l, omega (arith, a.session.running, l.expires))))
      rs logged

All-delete_self :
    (id : Bytes) (table : List (Bytes × Session)) → All (λ entry. entry.0 ≢ id) (delete id table)
unfolding delete
All-delete_self id [] = tt
All-delete_self id ((key, s) ∷ rest) = elim (Bool-cases (key == id)) [
  | inl e ↦ rw e (All-delete_self id rest)
  | inr e ↦ rw e ((λ p. ground (arith, eq_iff key id)), All-delete_self id rest)
]

logout_deletes :
    (parse_url : Bytes → Option (Bytes × Bytes)) (encode : Bytes → Bytes)
    (hmac : Bytes → Bytes → Bytes) (m : Manager) (r : Request) (id : Bytes) (sess : Session)
    → HasSession m r id sess
    → sess.principal.role ≡ role_admin
    → IsGuarded parse_url r sess.csrf_token
    → r.method ≡ codes "POST"
    → (serve parse_url encode hmac logout m r).1 ≡ record m { sessions = delete id m.sessions }
unfolding serve route_handler require_admin is_admin
logout_deletes parse_url encode hmac m r id sess live admin guarded post =
    let role : (sess.principal.role == role_admin) ≡ true =
      (eq_iff sess.principal.role role_admin).1 admin in
    let e = HasSession-authenticate m r id sess live in
    let through = IsGuarded-require_csrf parse_url logout_handler m id sess r guarded in
    let posted : (r.method != codes "POST") ≡ false =
      ground (arith, eq_iff r.method (codes "POST")) in
    let ends : (logout_handler m (context_of id sess) r).1
        ≡ record m { sessions = delete id m.sessions } =
      unfold logout_handler in rw (posted, live.named) refl in
    rw (e, role, through) ends

-- After an administrator's guarded POST to the logout route, no request with the session's cookie is
-- taken for anybody, whatever requests came in between, if no later random token repeats the cookie's.
pub logout-authenticate :
    (parse_url : Bytes → Option (Bytes × Bytes)) (encode : Bytes → Bytes)
    (hmac : Bytes → Bytes → Bytes) (m : Manager) (r : Request) (id : Bytes) (sess : Session)
    (rs : List (Route × Request)) (q : Request)
    → HasSession m r id sess
    → sess.principal.role ≡ role_admin
    → IsGuarded parse_url r sess.csrf_token
    → r.method ≡ codes "POST"
    → All (λ drawn. encoded encode drawn ≢ some id) m.random
    → q.session_cookie ≡ some id
    → (authenticate
        (serve_all parse_url encode hmac (serve parse_url encode hmac logout m r).1 rs)
        q).0
      ≡ anonymous
logout-authenticate parse_url encode hmac m r id sess rs q live admin guarded post unrepeated
      cookie =
    let P : Bytes × Session → Type 0 = λ entry. entry.0 ≢ id in
    let Q : Option Bytes → Type 0 = λ drawn. encoded encode drawn ≢ some id in
    let m' = (serve parse_url encode hmac logout m r).1 in
    let start : Holds parse_url hmac m.username m.password_hash m.session_ttl P Q m' =
      rw (logout_deletes parse_url encode hmac m r id sess live admin guarded post) (record {
        same_username = refl;
        same_hash = refl;
        same_ttl = refl;
        of_sessions = All-delete_self id m.sessions;
        of_random = unrepeated;
      }) in
    let kept =
      serve_all-Holds parse_url hmac m.username m.password_hash m.session_ttl encode P Q rs m' start
        (All-intro
          (λ (route, p) i s (at_login, l, (drawn, other, e)) same. other (e ∙ ap some same)) rs) in
    elim (authenticate-cases (serve_all parse_url encode hmac m' rs) q) [
      | inl e ↦ e
      | inr (i, s, found, e) ↦
          let same : i ≡ id = (let f : some i ≡ some id = sym found.presented ∙ cookie in cc) in
          absurd (All-lookup P i _ s kept.of_sessions found.stored same)
    ]
