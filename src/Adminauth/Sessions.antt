-- ===== src/Adminauth/Sessions.antt =====
-- internal/adminauth/adminauth.go: the creation of a manager, its sessions, and the guards
-- `Authenticate`, `RequireAdmin`, `RequireAdminPage` and `RequireCSRF`.
use boot_optim_distribution.Base.{
  pos_part, ltb_ℤ, int_eq, ℤ, length, is_empty, lookup, delete, ◌>>=◌, Result, Bytes, codes,
  bytes_eq, ltb, if◌then◌else◌, ◌==◌, ◌!=◌, nat_eq, bool_eq, pos, ok, err, ℕ, ◌*◌, Bool, true,
  false, not, ◌&&◌, ◌||◌, Option, none, some, List, [], ◌∷◌,
}
use boot_optim_distribution.Adminauth.Password.{PasswordHash, HashError, parse_password_hash}
use boot_optim_distribution.Adminauth.Types.{
  minute, default_session_ttl, role_admin, Session, Manager, Context, anonymous, Request, Handler,
  is_safe, unauthorized, forbidden, see_other,
}

pub data ConfigError : Type 0 where
  no_username username_too_long bad_ttl : ConfigError
  bad_hash : HashError → ConfigError

pub record Config : Type 0 where
  pub username : Bytes
  pub password_hash : Bytes
  pub session_ttl : ℤ

abbrev pub ttl_of : ℤ → ℤ
ttl_of ttl = if ttl == pos 0 then pos default_session_ttl else ttl

abbrev pub of_hash {ℓ} : {A : Type ℓ} → Result HashError A → Result ConfigError A
of_hash (ok a) = ok a
of_hash (err e) = err (bad_hash e)

module _ (trim_space : Bytes → Bytes) (atoi : Bytes → Option ℤ) (decode : Bytes → Option Bytes)
    (random : List (Option Bytes)) where
  unfoldable pub made : Config → Bytes → PasswordHash → Result ConfigError Manager
  made cfg username hash =
      if ltb_ℤ (ttl_of cfg.session_ttl) (pos (5 * minute))
        || ltb_ℤ (pos (1440 * minute)) (ttl_of cfg.session_ttl)
      then err bad_ttl
      else ok (record {
        username = username;
        password_hash = hash;
        session_ttl = pos_part (ttl_of cfg.session_ttl);
        random = random;
        sessions = [];
      })

  -- `New`
  unfoldable pub new : Config → Result ConfigError Manager
  new cfg =
      let username = trim_space cfg.username in
      if is_empty username
      then err no_username
      else if ltb 128 (length username)
      then err username_too_long
      else of_hash (parse_password_hash atoi decode (trim_space cfg.password_hash))
        >>= made cfg username

-- `!now.Before(sess.ExpiresAt)`
abbrev pub expired : ℕ → Session → Bool
expired now sess = not (ltb now sess.expires_at)

-- `pruneExpiredLocked`
unfoldable pub prune : ℕ → List (Bytes × Session) → List (Bytes × Session)
prune now [] = []
prune now ((id, sess) ∷ rest) =
    let kept = prune now rest in if expired now sess then kept else (id, sess) ∷ kept

abbrev pub context_of : Bytes → Session → Context
context_of id sess = record {
  principal = some sess.principal;
  csrf = some sess.csrf_token;
  session_id = some id;
}

unfoldable pub authenticate_id : Manager → ℕ → Bytes → Context × Manager
authenticate_id m now id = elim (lookup id m.sessions) [
  | none ↦ (anonymous, m)
  | some sess ↦
      if expired now sess
      then (anonymous, record m { sessions = delete id m.sessions })
      else (context_of id sess, m)
]

-- `Authenticate`: the context for the handler behind it.
unfoldable pub authenticate : Manager → Request → Context × Manager
authenticate m r = elim r.session_cookie [
  | none ↦ (anonymous, m)
  | some id ↦ if is_empty id then (anonymous, m) else authenticate_id m r.arrived id
]

-- `IsAdmin`
unfoldable pub is_admin : Context → Bool
is_admin ctx = elim ctx.principal [ none ↦ false | some p ↦ p.role == role_admin ]

-- `RequireAdmin`
unfoldable pub require_admin : Handler → Handler
require_admin next m ctx r = if not (is_admin ctx) then (unauthorized, m) else next m ctx r

-- `RequireAdminPage`
unfoldable pub require_admin_page : Bytes → Handler → Handler
require_admin_page login_path next m ctx r =
    if not (is_admin ctx)
    then (if r.method == codes "GET" || r.method == codes "HEAD"
        then (see_other login_path [] [], m)
        else (unauthorized, m))
    else next m ctx r

-- `constantTimeStringEqual`: the texts are after a test of their lengths.
unfoldable pub constant_time_string_equal : Bytes → Bytes → Bool
constant_time_string_equal a b = if length a != length b then false else a == b

-- The origin, as scheme and host, is the server's own over HTTPS.
unfoldable pub own_host : Bytes → Option (Bytes × Bytes) → Bool
own_host served none = false
own_host served (some (scheme, host)) = scheme == codes "https" && host == served

module _ (parse_url : Bytes → Option (Bytes × Bytes)) where
  -- `sameOriginOrOpaque`: `url.Parse` gives the scheme and the host.
  unfoldable pub same_origin_or_opaque : Request → Bool
  same_origin_or_opaque r =
      if r.origin == [] || r.origin == codes "null"
      then true
      else own_host r.host (parse_url r.origin)

  unfoldable pub csrf_matches : Option Bytes → Bytes → Bool
  csrf_matches none provided = false
  csrf_matches (some expected) provided =
      not (
        is_empty expected
        || is_empty provided
        || not (constant_time_string_equal expected provided))

  -- `RequireCSRF`
  unfoldable pub require_csrf : Handler → Handler
  require_csrf next m ctx r =
      if is_safe r.method
      then next m ctx r
      else if not (same_origin_or_opaque r)
      then (forbidden, m)
      else if not (csrf_matches ctx.csrf r.csrf_header)
      then (forbidden, m)
      else next m ctx r
