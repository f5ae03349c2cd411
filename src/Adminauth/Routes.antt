-- ===== src/Adminauth/Routes.antt =====
-- cmd/bootoptim-distribution/main.go: the administrator's routes, with the guards before each.
use boot_optim_distribution.Base.{
  int_eq, Bytes, codes, bytes_eq, nat_eq, bool_eq, Option, List, [], ◌∷◌,
}
use boot_optim_distribution.Adminauth.Types.{Manager, Request, Outcome, passed, Handler}
use boot_optim_distribution.Adminauth.Sessions.{
  authenticate, require_admin, require_admin_page, require_csrf,
}
use boot_optim_distribution.Adminauth.Login.{login_handler, logout_handler, session_handler}

-- /admin/login, /admin/logout, /admin/api/session, the pages under /admin/, the reads
-- (/admin/api/game-versions), and the handlers behind `RequireAdmin(RequireCSRF(…))`: the
-- administrator's profile API and /admin/api/service-update.
pub data Route : Type 0 where
  login logout session page read write : Route

-- The handler behind the guards.
abbrev pub pass : Handler
pass m ctx r = (passed ctx, m)

module _ (parse_url : Bytes → Option (Bytes × Bytes)) (encode : Bytes → Bytes)
    (hmac : Bytes → Bytes → Bytes) where
  -- `AdminMiddleware`, and what stands before /admin/api/service-update.
  abbrev pub admin_middleware : Handler → Handler
  admin_middleware next = require_admin (require_csrf parse_url next)

  unfoldable pub route_handler : Route → Handler
  route_handler login = login_handler parse_url encode hmac (codes "/admin/")
  route_handler logout = require_admin (require_csrf parse_url logout_handler)
  route_handler session = require_admin session_handler
  route_handler page = require_admin_page (codes "/admin/login") pass
  route_handler read = require_admin pass
  route_handler write = admin_middleware pass

  -- `Authenticate` stands before every route.
  unfoldable pub serve : Route → Manager → Request → Outcome × Manager
  serve route m r = let (ctx, m') = authenticate m r in route_handler route m' ctx r

  -- The manager after some requests.
  unfoldable pub serve_all : Manager → List (Route × Request) → Manager
  serve_all m [] = m
  serve_all m ((route, r) ∷ rest) = serve_all (serve route m r).1 rest
