-- ===== src/Adminauth/Steps.antt =====
-- internal/adminauth/adminauth.go: what every request keeps of the manager, on any route.
use boot_optim_distribution.Base.{
  int_eq, is_empty, All, lookup, delete, All-delete, Bytes, codes, bytes_eq, ◌==◌, ◌!=◌, eq_iff,
  nat_eq, bool_eq, Bool-cases, Option-cases, ℕ, ◌≡◌, refl, sym, ap, ◌∙◌, inl, inr, true, not, ◌||◌,
  Option, none, some, List, [], ◌∷◌, arith,
}
use boot_optim_distribution.Adminauth.Password.{PasswordHash, verify}
use boot_optim_distribution.Adminauth.Types.{
  Session, Manager, Context, Form, Request, Handler, is_safe,
}
use boot_optim_distribution.Adminauth.Sessions.{
  expired, is_admin, authenticate_id, authenticate, require_admin, require_admin_page,
  constant_time_string_equal, require_csrf, same_origin_or_opaque, csrf_matches,
}
use boot_optim_distribution.Adminauth.Login.{
  encoded, check_credentials, check_form, handle_login_post, handle_login, not_accepted,
  success_path_of, login_handler, drop_session, logout_handler, session_handler,
}
use boot_optim_distribution.Adminauth.Routes.{
  Route, login, logout, session, page, read, write, pass, route_handler, serve, serve_all,
}
use boot_optim_distribution.Adminauth.Holds.{
  IsLogin, Holds, Opens, Holds-sessions, render_rejected_login-Holds, offer_login-Holds,
  with_tokens-Holds,
}

module _ (parse_url : Bytes → Option (Bytes × Bytes)) (hmac : Bytes → Bytes → Bytes)
    (username : Bytes) (hash : PasswordHash) (ttl : ℕ) (encode : Bytes → Bytes)
    (P : Bytes × Session → Type 0) (Q : Option Bytes → Type 0) where
  abbrev Kept : Manager → Type 0
  Kept m = Holds parse_url hmac username hash ttl P Q m

  abbrev Logs : Request → Type 0
  Logs r = Opens parse_url hmac username hash ttl encode [] P Q r

  module _ (success_path : Bytes) where
    check_credentials-Holds :
        (m : Manager) (r : Request) (form : Form)
        → Kept m
        → r.form ≡ some form
        → same_origin_or_opaque parse_url r ≡ true
        → r.login_cookie ≡ some form.csrf_token
        → Logs r
        → Kept (check_credentials parse_url encode hmac success_path m r form).1
    unfolding check_credentials
    check_credentials-Holds m r form h posted own cookie opens =
        elim (Option-cases (verify hmac m.password_hash form.password)) [
          | inl e ↦ rw (e, check_credentials) h
          | inr (good, e) ↦
              elim (Bool-cases
                (not (constant_time_string_equal form.username m.username) || not good)) [
                  | inl bad ↦ rw (e, check_credentials, bad) h
                  | inr fine ↦
                      let name : form.username ≡ m.username =
                        unfold constant_time_string_equal in
                        ground (arith, eq_iff form.username m.username) in
                      let true_good : good ≡ true = ground (arith, fine) in
                      let proved : verify hmac hash form.password ≡ some true =
                        ap (λ k. verify hmac k form.password) (sym h.same_hash)
                        ∙ e
                        ∙ ap some true_good in
                      rw (e, check_credentials, fine)
                        (with_tokens-Holds parse_url hmac username hash ttl encode success_path P Q
                          m r h
                          (λ sess p x. record {
                            form = form;
                            posted = posted;
                            own_origin = own;
                            cookie = cookie;
                            named = name ∙ h.same_username;
                            proved = proved;
                            principal = p;
                            expires = x;
                          })
                          opens)
                ]
        ]

    check_form-Holds :
        (m : Manager) (r : Request) (form : Form) (o : Option Bytes)
        → Kept m
        → r.form ≡ some form
        → same_origin_or_opaque parse_url r ≡ true
        → r.login_cookie ≡ o
        → Logs r
        → Kept (check_form parse_url encode hmac success_path m r form o).1
    unfolding check_form
    check_form-Holds m r form none h posted own e opens =
        render_rejected_login-Holds parse_url hmac username hash ttl encode success_path P Q m r 400
          not_accepted h
    check_form-Holds m r form (some cookie) h posted own e opens =
        elim (Bool-cases (
          is_empty form.csrf_token
          || is_empty cookie
          || not (constant_time_string_equal form.csrf_token cookie))) [
            | inl bad ↦ rw bad (
                render_rejected_login-Holds parse_url hmac username hash ttl encode success_path P Q
                  m r 400 not_accepted h)
            | inr fine ↦
                let same : form.csrf_token ≡ cookie =
                  unfold constant_time_string_equal in
                  ground (arith, eq_iff form.csrf_token cookie) in
                rw fine
                  (check_credentials-Holds m r form h posted own (e ∙ ap some (sym same)) opens)
          ]

    handle_login_post-Holds :
        (m : Manager) (r : Request)
        → Kept m
        → Logs r
        → Kept (handle_login_post parse_url encode hmac success_path m r).1
    unfolding handle_login_post
    handle_login_post-Holds m r h opens =
        let rejected =
          render_rejected_login-Holds parse_url hmac username hash ttl encode success_path P Q m r
            400 not_accepted h in
        elim (Bool-cases (same_origin_or_opaque parse_url r)) [
          | inr e ↦ rw e rejected
          | inl own ↦ elim (Option-cases r.form) [
            | inl e ↦ rw (own, e) rejected
            | inr (form, e) ↦
                rw (own, e) (check_form-Holds m r form r.login_cookie h e own refl opens)
          ]
        ]

    handle_login-Holds :
        (m : Manager) (ctx : Context) (r : Request)
        → Kept m
        → Logs r
        → Kept (handle_login parse_url encode hmac success_path m ctx r).1
    unfolding handle_login
    handle_login-Holds m ctx r h opens =
        elim (Bool-cases (r.method == codes "GET" || r.method == codes "HEAD")) [
          | inl e ↦
              rw e (
                offer_login-Holds parse_url hmac username hash ttl encode success_path P Q m ctx r
                  h)
          | inr e ↦ elim (Bool-cases (r.method == codes "POST")) [
            | inl f ↦ rw (e, f) (handle_login_post-Holds m r h opens)
            | inr f ↦ rw (e, f) h
          ]
        ]

  drop_session-Holds : (m : Manager) (o : Option Bytes) → Kept m → Kept (drop_session m o)
  drop_session-Holds m none h = h
  drop_session-Holds m (some id) h = elim (Bool-cases (is_empty id)) [
    | inl e ↦ rw e h
    | inr e ↦ rw e (
        Holds-sessions parse_url hmac username hash ttl m (delete id m.sessions) h
          (All-delete P id m.sessions h.of_sessions))
  ]

  logout_handler-Holds :
      (m : Manager) (ctx : Context) (r : Request) → Kept m → Kept (logout_handler m ctx r).1
  unfolding logout_handler
  logout_handler-Holds m ctx r h = elim (Bool-cases (r.method != codes "POST")) [
    | inl e ↦ rw e h
    | inr e ↦ rw e (drop_session-Holds m ctx.session_id h)
  ]

  authenticate-Holds : (m : Manager) (r : Request) → Kept m → Kept (authenticate m r).1
  unfolding authenticate authenticate_id
  authenticate-Holds m r h = elim (Option-cases r.session_cookie) [
    | inl e ↦ rw e h
    | inr (id, e) ↦ elim (Bool-cases (is_empty id)) [
      | inl b ↦ rw (e, b) h
      | inr b ↦ elim (Option-cases (lookup id m.sessions)) [
        | inl f ↦ rw (e, b, authenticate_id, f) h
        | inr (sess, f) ↦ elim (Bool-cases (expired r.arrived sess)) [
          | inl g ↦
              rw (e, b, authenticate_id, f, g)
                (Holds-sessions parse_url hmac username hash ttl m (delete id m.sessions) h
                  (All-delete P id m.sessions h.of_sessions))
          | inr g ↦ rw (e, b, authenticate_id, f, g) h
        ]
      ]
    ]
  ]

  abbrev KeepsAll : Handler → Type 0
  KeepsAll next = (m : Manager) (ctx : Context) (r : Request) → Kept m → Kept (next m ctx r).1

  require_admin-Holds : (next : Handler) → KeepsAll next → KeepsAll (require_admin next)
  unfolding require_admin
  require_admin-Holds next k m ctx r h = elim (Bool-cases (is_admin ctx)) [
    | inl e ↦ rw e (k m ctx r h)
    | inr e ↦ rw e h
  ]

  require_admin_page-Holds :
      (path : Bytes) (next : Handler) → KeepsAll next → KeepsAll (require_admin_page path next)
  unfolding require_admin_page
  require_admin_page-Holds path next k m ctx r h = elim (Bool-cases (is_admin ctx)) [
    | inl e ↦ rw e (k m ctx r h)
    | inr e ↦ elim (Bool-cases (r.method == codes "GET" || r.method == codes "HEAD")) [
      | inl f ↦ rw (e, f) h
      | inr f ↦ rw (e, f) h
    ]
  ]

  require_csrf-Holds : (next : Handler) → KeepsAll next → KeepsAll (require_csrf parse_url next)
  unfolding require_csrf
  require_csrf-Holds next k m ctx r h = elim (Bool-cases (is_safe r.method)) [
    | inl e ↦ rw e (k m ctx r h)
    | inr e ↦ elim (Bool-cases (same_origin_or_opaque parse_url r)) [
      | inr f ↦ rw (e, f) h
      | inl f ↦ elim (Bool-cases (csrf_matches parse_url ctx.csrf r.csrf_header)) [
        | inr g ↦ rw (e, f, g) h
        | inl g ↦ rw (e, f, g) (k m ctx r h)
      ]
    ]
  ]

  session_handler-Holds : KeepsAll session_handler
  unfolding session_handler
  session_handler-Holds m ctx r h = elim (Bool-cases (r.method != codes "GET")) [
    | inl e ↦ rw e h
    | inr e ↦ rw e h
  ]

  -- What a request on a route can open.
  abbrev pub LogsAt : Route × Request → Type 0
  LogsAt (route, r) =
      (id : Bytes) (sess : Session)
      → (route ≡ login)
        × IsLogin parse_url hmac username hash ttl r sess
        × ((drawn : Option Bytes) × Q drawn × (encoded encode drawn ≡ some id))
      → P (id, sess)

  route_handler-Holds :
      (route : Route) (m : Manager) (ctx : Context) (r : Request)
      → Kept m
      → LogsAt (route, r)
      → Kept (route_handler parse_url encode hmac route m ctx r).1
  unfolding route_handler login_handler
  route_handler-Holds login m ctx r h opens =
      handle_login-Holds (success_path_of (codes "/admin/")) m ctx r h
        (λ id sess drawn q e l. opens id sess (refl, l, (drawn, q, e)))
  route_handler-Holds logout m ctx r h opens =
      require_admin-Holds (require_csrf parse_url logout_handler)
        (require_csrf-Holds logout_handler logout_handler-Holds) m ctx r h
  route_handler-Holds session m ctx r h opens =
      require_admin-Holds session_handler session_handler-Holds m ctx r h
  route_handler-Holds page m ctx r h opens =
      require_admin_page-Holds (codes "/admin/login") pass (λ _ _ _ k. k) m ctx r h
  route_handler-Holds read m ctx r h opens = require_admin-Holds pass (λ _ _ _ k. k) m ctx r h
  route_handler-Holds write m ctx r h opens =
      require_admin-Holds (require_csrf parse_url pass) (require_csrf-Holds pass (λ _ _ _ k. k)) m
        ctx r h

  pub serve-Holds :
      (route : Route) (m : Manager) (r : Request)
      → Kept m
      → LogsAt (route, r)
      → Kept (serve parse_url encode hmac route m r).1
  unfolding serve
  serve-Holds route m r h opens =
      let (ctx, m') = authenticate m r in
      route_handler-Holds route m' ctx r (authenticate-Holds m r h) opens

  pub serve_all-Holds :
      (rs : List (Route × Request)) (m : Manager)
      → Kept m
      → All LogsAt rs
      → Kept (serve_all parse_url encode hmac m rs)
  unfolding serve_all
  serve_all-Holds [] m h opens = h
  serve_all-Holds ((route, r) ∷ rs) m h (here, rest) =
      serve_all-Holds rs (serve parse_url encode hmac route m r).1 (serve-Holds route m r h here)
        rest
