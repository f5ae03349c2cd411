-- ===== src/Adminauth/Types.antt =====
-- internal/adminauth/adminauth.go: the manager, its sessions, requests and responses.
-- A time is a number of nanoseconds.
use boot_optim_distribution.Base.{
  int_eq, ℤ, Bytes, codes, bytes_eq, ◌==◌, nat_eq, bool_eq, pos, negsuc, ℕ, ◌*◌, ◌/◌, Bool, true,
  ◌||◌, Option, none, List, [], ◌∷◌, ◌++◌,
}
use boot_optim_distribution.Adminauth.Password.{PasswordHash}

abbrev pub second : ℕ
second = 1000000000

abbrev pub minute : ℕ
minute = 60 * second

-- `defaultSessionTTL`
abbrev pub default_session_ttl : ℕ
default_session_ttl = 480 * minute

-- `RoleAdmin`
abbrev pub role_admin : Bytes
role_admin = codes "admin"

pub record Principal : Type 0 where
  pub username : Bytes
  pub role : Bytes

pub record Session : Type 0 where
  pub principal : Principal
  pub csrf_token : Bytes
  pub expires_at : ℕ

-- `random` holds what the next reads of 32 random bytes give: none is an error of the source.
pub record Manager : Type 0 where
  pub username : Bytes
  pub password_hash : PasswordHash
  pub session_ttl : ℕ
  pub random : List (Option Bytes)
  pub sessions : List (Bytes × Session)

-- The values that `Authenticate` puts into the request's context.
pub record Context : Type 0 where
  pub principal : Option Principal
  pub csrf : Option Bytes
  pub session_id : Option Bytes

abbrev pub anonymous : Context
anonymous = record { principal = none; csrf = none; session_id = none }

pub record Form : Type 0 where
  pub csrf_token : Bytes
  pub username : Bytes
  pub password : Bytes

-- The parts of a request that the handlers read. A header that is missing is the empty text; a cookie
-- that is missing, and a form that `ParseForm` refuses, is none. The three times are what the clock
-- says in `Authenticate`, in the handler, and when the expired sessions are removed.
pub record Request : Type 0 where
  pub method : Bytes
  pub host : Bytes
  pub origin : Bytes
  pub csrf_header : Bytes
  pub session_cookie : Option Bytes
  pub login_cookie : Option Bytes
  pub form : Option Form
  pub arrived : ℕ
  pub handled : ℕ
  pub pruned : ℕ

-- `MaxAge` -1 deletes the cookie.
pub record Cookie : Type 0 where
  pub name : Bytes
  pub value : Bytes
  pub path : Bytes
  pub secure : Bool
  pub http_only : Bool
  pub same_site_strict : Bool
  pub expires : ℕ
  pub max_age : ℤ

pub data Body : Type 0 where
  no_body : Body
  -- `http.Error`
  error_text : Bytes → Body
  -- `http.Redirect`
  redirect_to : Bytes → Body
  -- The login page with its token and message.
  login_page : Bytes → Bytes → Body
  session_info : Principal → Bytes → Body

pub record Response : Type 0 where
  pub status : ℕ
  pub headers : List (Bytes × Bytes)
  pub cookies : List Cookie
  pub body : Body

-- How a handler ends: with a response, with a call of the handler behind it, or with a panic.
pub data Outcome : Type 0 where
  answered : Response → Outcome
  passed : Context → Outcome
  panicked : Outcome

abbrev pub Handler : Type 0
Handler = Manager → Context → Request → Outcome × Manager

abbrev pub is_safe : Bytes → Bool
is_safe method = method == codes "GET" || method == codes "HEAD" || method == codes "OPTIONS"

-- `setSessionCookie`
abbrev pub session_cookie : Bytes → ℕ → ℕ → Cookie
session_cookie value expires ttl = record {
  name = codes "__Host-bootoptim_admin";
  value = value;
  path = codes "/";
  secure = true;
  http_only = true;
  same_site_strict = true;
  expires = expires;
  max_age = pos (ttl / second);
}

-- `clearSessionCookie`
abbrev pub cleared_session_cookie : Cookie
cleared_session_cookie = record (session_cookie [] second 0) { max_age = negsuc 0 }

-- `setLoginCSRFCookie`
abbrev pub login_csrf_cookie : Bytes → ℕ → Cookie
login_csrf_cookie value expires = record {
  name = codes "__Host-bootoptim_login_csrf";
  value = value;
  path = codes "/";
  secure = true;
  http_only = true;
  same_site_strict = true;
  expires = expires;
  max_age = pos 600;
}

-- `clearLoginCSRFCookie`
abbrev pub cleared_login_csrf_cookie : Cookie
cleared_login_csrf_cookie = record (login_csrf_cookie [] second) { max_age = negsuc 0 }

abbrev pub no_store : Bytes × Bytes
no_store = (codes "Cache-Control", codes "no-store")

-- `setLoginSecurityHeaders`
abbrev pub login_security_headers : List (Bytes × Bytes)
login_security_headers =
    (
      codes "Content-Security-Policy",
      codes "default-src 'none'; form-action 'self'; base-uri 'none'; frame-ancestors 'none'",
    )
    ∷ (codes "Cross-Origin-Resource-Policy", codes "same-origin")
    ∷ (codes "Referrer-Policy", codes "no-referrer")
    ∷ (codes "X-Content-Type-Options", codes "nosniff")
    ∷ (codes "X-Frame-Options", codes "DENY")
    ∷ []

-- `unauthorized`
abbrev pub unauthorized : Outcome
unauthorized = answered (record {
  status = 401;
  headers = no_store ∷ [];
  cookies = [];
  body = error_text (codes "authentication required");
})

-- `forbidden`
abbrev pub forbidden : Outcome
forbidden = answered (record {
  status = 403;
  headers = no_store ∷ [];
  cookies = [];
  body = error_text (codes "request forbidden");
})

-- The response to a method that the handler does not take.
abbrev pub method_not_allowed : Bytes → List (Bytes × Bytes) → Outcome
method_not_allowed allow headers = answered (record {
  status = 405;
  headers = headers ++ ((codes "Allow", allow) ∷ []);
  cookies = [];
  body = no_body;
})

abbrev pub see_other : Bytes → List (Bytes × Bytes) → List Cookie → Outcome
see_other location headers cookies =
    answered
      (record { status = 303; headers = headers; cookies = cookies; body = redirect_to location })
