-- ===== src/Adminauth/Login.antt =====
-- internal/adminauth/adminauth.go: the handlers `LoginHandler`, `LogoutHandler` and `SessionHandler`.
use boot_optim_distribution.Base.{
  int_eq, is_empty, delete, insert, Bytes, codes, bytes_eq, if◌then◌else◌, ◌==◌, ◌!=◌, nat_eq,
  bool_eq, ℕ, ◌+◌, ◌*◌, Bool, false, not, ◌||◌, Option, none, some, List, [], ◌∷◌, ◌++◌,
}
use boot_optim_distribution.Adminauth.Password.{verify}
use boot_optim_distribution.Adminauth.Types.{
  minute, role_admin, Principal, Session, Manager, Context, Form, Request, Cookie, no_body,
  error_text, login_page, session_info, Outcome, answered, panicked, Handler, session_cookie,
  cleared_session_cookie, login_csrf_cookie, cleared_login_csrf_cookie, no_store,
  login_security_headers, unauthorized, method_not_allowed, see_other,
}
use boot_optim_distribution.Adminauth.Sessions.{
  prune, is_admin, constant_time_string_equal, same_origin_or_opaque,
}

-- What `LoginHandler` sets on every response.
abbrev pub login_headers : List (Bytes × Bytes)
login_headers = no_store ∷ login_security_headers

-- `http.Error(w, "login unavailable", http.StatusServiceUnavailable)`
abbrev pub unavailable : Outcome
unavailable = answered (record {
  status = 503;
  headers = login_headers;
  cookies = [];
  body = error_text (codes "login unavailable");
})

-- `writeLoginPage`
abbrev pub write_login_page : List Cookie → Bool → ℕ → Bytes → Bytes → Outcome
write_login_page cookies head status csrf_token message = answered (record {
  status = status;
  headers = login_headers ++ ((codes "Content-Type", codes "text/html; charset=utf-8") ∷ []);
  cookies = cookies;
  body = if head then no_body else login_page csrf_token message;
})

abbrev pub encoded : (Bytes → Bytes) → Option Bytes → Option Bytes
encoded encode none = none
encoded encode (some buf) = some (encode buf)

module _ (encode : Bytes → Bytes) where
  -- `randomToken`
  unfoldable pub random_token : Manager → Option Bytes × Manager
  random_token m = elim m.random [
    | [] ↦ (none, m)
    | read ∷ rest ↦ (encoded encode read, record m { random = rest })
  ]

  -- `renderRejectedLogin`
  unfoldable pub render_rejected_login : Manager → Request → ℕ → Bytes → Outcome × Manager
  render_rejected_login m r status message =
      let (token, m') = random_token m in
      elim token [
        | none ↦ (unavailable, m')
        | some t ↦ (
          write_login_page (login_csrf_cookie t (r.handled + 10 * minute) ∷ []) false status t
              message,
          m',
        )
      ]

-- The session that a login opens.
abbrev pub opened : Manager → Bytes → ℕ → Session
opened m csrf_token now = record {
  principal = record { username = m.username; role = role_admin };
  csrf_token = csrf_token;
  expires_at = now + m.session_ttl;
}

module _ (encode : Bytes → Bytes) (success_path : Bytes) where
  -- The session is stored, and what is expired goes.
  unfoldable pub open_session : Manager → Request → Bytes → Bytes → Outcome × Manager
  open_session m r session_id csrf_token = (
    see_other success_path login_headers (
        session_cookie session_id (r.handled + m.session_ttl) m.session_ttl
        ∷ cleared_login_csrf_cookie
        ∷ []),
    record m {
      sessions = prune r.pruned (insert session_id (opened m csrf_token r.handled) m.sessions);
    },
  )

  unfoldable pub with_tokens : Manager → Request → Outcome × Manager
  with_tokens m r =
      let (session_id, m₁) = random_token encode m in
      elim session_id [
        | none ↦ (unavailable, m₁)
        | some id ↦
            let (csrf_token, m₂) = random_token encode m₁ in
            elim csrf_token [ none ↦ (unavailable, m₂) | some token ↦ open_session m₂ r id token ]
      ]

abbrev pub not_accepted : Bytes
not_accepted = codes "Request could not be accepted."

module _ (parse_url : Bytes → Option (Bytes × Bytes)) (encode : Bytes → Bytes)
    (hmac : Bytes → Bytes → Bytes) (success_path : Bytes) where
  -- Name and password of a form whose token is the cookie's.
  unfoldable pub check_credentials : Manager → Request → Form → Outcome × Manager
  check_credentials m r form = elim (verify hmac m.password_hash form.password) [
    | none ↦ (panicked, m)
    | some password_ok ↦
        if not (constant_time_string_equal form.username m.username) || not password_ok
        then (write_login_page [] false 401 form.csrf_token (codes "Invalid credentials."), m)
        else with_tokens encode success_path m r
  ]

  -- The form's token against the cookie's.
  unfoldable pub check_form : Manager → Request → Form → Option Bytes → Outcome × Manager
  check_form m r form none = render_rejected_login encode m r 400 not_accepted
  check_form m r form (some cookie) =
      if is_empty form.csrf_token
        || is_empty cookie
        || not (constant_time_string_equal form.csrf_token cookie)
      then render_rejected_login encode m r 400 not_accepted
      else check_credentials m r form

  -- `handleLoginPost`
  unfoldable pub handle_login_post : Manager → Request → Outcome × Manager
  handle_login_post m r =
      if not (same_origin_or_opaque parse_url r)
      then render_rejected_login encode m r 400 not_accepted
      else elim r.form [
        | none ↦ render_rejected_login encode m r 400 not_accepted
        | some form ↦ check_form m r form r.login_cookie
      ]

  -- The login page, with a fresh token in its form and its cookie.
  unfoldable pub offer_login : Manager → Context → Request → Outcome × Manager
  offer_login m ctx r =
      if is_admin ctx
      then (see_other success_path login_headers [], m)
      else (let (token, m') = random_token encode m in
          elim token [
            | none ↦ (unavailable, m')
            | some t ↦ (
              write_login_page (login_csrf_cookie t (r.handled + 10 * minute) ∷ [])
                  (r.method == codes "HEAD") 200 t [],
              m',
            )
          ])

  unfoldable pub handle_login : Handler
  handle_login m ctx r =
      if r.method == codes "GET" || r.method == codes "HEAD"
      then offer_login m ctx r
      else if r.method == codes "POST"
      then handle_login_post m r
      else (method_not_allowed (codes "GET, HEAD, POST") login_headers, m)

-- The path that a login leads to: it has to start with a slash.
unfoldable pub success_path_of : Bytes → Bytes
success_path_of [] = codes "/admin/"
success_path_of (c ∷ path) = if c != b'/' then codes "/admin/" else c ∷ path

-- `LoginHandler`
unfoldable pub login_handler :
    (Bytes → Option (Bytes × Bytes)) → (Bytes → Bytes) → (Bytes → Bytes → Bytes) → Bytes → Handler
login_handler parse_url encode hmac success_path =
    handle_login parse_url encode hmac (success_path_of success_path)

abbrev pub drop_session : Manager → Option Bytes → Manager
drop_session m none = m
drop_session m (some id) = if is_empty id then m else record m { sessions = delete id m.sessions }

-- `LogoutHandler`
unfoldable pub logout_handler : Handler
logout_handler m ctx r =
    if r.method != codes "POST" then (method_not_allowed (codes "POST") [], m) else (
      answered (record {
        status = 204;
        headers = no_store ∷ [];
        cookies = cleared_session_cookie ∷ [];
        body = no_body;
      }),
      drop_session m ctx.session_id,
    )

unfoldable pub describe : Option Principal → Option Bytes → Outcome
describe none csrf = unauthorized
describe (some principal) none = unauthorized
describe (some principal) (some csrf) = answered (record {
  status = 200;
  headers = (codes "Content-Type", codes "application/json; charset=utf-8") ∷ no_store ∷ [];
  cookies = [];
  body = session_info principal csrf;
})

-- `SessionHandler`
unfoldable pub session_handler : Handler
session_handler m ctx r =
    if r.method != codes "GET"
    then (method_not_allowed (codes "GET") [], m)
    else (describe ctx.principal ctx.csrf, m)
