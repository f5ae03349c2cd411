-- ===== src/Adminauth/Guards.antt =====
-- internal/adminauth/adminauth.go: which requests the guards let through to an administrator's
-- handler.
use boot_optim_distribution.Base.{
  int_eq, length, is_empty, lookup, Bytes, codes, bytes_eq, ◌==◌, eq_iff, eq_refl, nat_eq, bool_eq,
  Bool-cases, Option-cases, ◌<◌, ◌≡◌, refl, ◌≢◌, ◌↔◌, ◌⊎◌, inl, inr, true, false, Option, none,
  some, [], arith,
}
use boot_optim_distribution.Adminauth.Types.{
  role_admin, Session, Manager, Context, anonymous, Request, passed, is_safe, Handler,
}
use boot_optim_distribution.Adminauth.Sessions.{
  expired, context_of, authenticate_id, authenticate, is_admin, own_host, require_admin,
  constant_time_string_equal, same_origin_or_opaque, csrf_matches, require_csrf,
}
use boot_optim_distribution.Adminauth.Routes.{write, pass, route_handler, serve}

-- The cookie names a session that is not over.
pub record HasSession (m : Manager) (r : Request) (id : Bytes) (sess : Session) : Type 0 where
  pub presented : r.session_cookie ≡ some id
  pub named : is_empty id ≡ false
  pub stored : lookup id m.sessions ≡ some sess
  pub running : r.arrived < sess.expires_at

pub authenticate-cases :
    (m : Manager) (r : Request)
    → ((authenticate m r).0 ≡ anonymous)
      ⊎ ((id : Bytes) × (sess : Session) × HasSession m r id sess
          × (authenticate m r ≡ (context_of id sess, m)))
unfolding authenticate authenticate_id
authenticate-cases m r = elim (Option-cases r.session_cookie) [
  | inl e ↦ inl (ground (arith, e))
  | inr (id, e) ↦ elim (Bool-cases (is_empty id)) [
    | inl b ↦ inl (ground (arith, e, b))
    | inr b ↦ elim (Option-cases (lookup id m.sessions)) [
      | inl f ↦ inl (ground (arith, e, b, f))
      | inr (sess, f) ↦ elim (Bool-cases (expired r.arrived sess)) [
        | inl over ↦ inl (ground (arith, e, b, f, over))
        | inr over ↦ inr (
          id,
          sess,
          record { presented = e; named = b; stored = f; running = ground arith },
          rw (e, b, authenticate_id, f, over),
        )
      ]
    ]
  ]
]

pub HasSession-authenticate :
    (m : Manager) (r : Request) (id : Bytes) (sess : Session)
    → HasSession m r id sess
    → authenticate m r ≡ (context_of id sess, m)
unfolding authenticate authenticate_id
HasSession-authenticate m r id sess h =
    let live : expired r.arrived sess ≡ false = ground (arith, h.running) in
    rw (h.presented, h.named, authenticate_id, h.stored, live)

own_host-eq-true :
    (served : Bytes) (o : Option (Bytes × Bytes))
    → own_host served o ≡ true
    → o ≡ some (codes "https", served)
unfolding own_host
own_host-eq-true served none h = cc
own_host-eq-true served (some (scheme, host)) h =
    let s : scheme ≡ codes "https" = ground (arith, eq_iff scheme (codes "https")) in
    let t : host ≡ served = ground (arith, eq_iff host served) in rw (s, t)

own_host_self : (served : Bytes) → own_host served (some (codes "https", served)) ≡ true
unfolding own_host
own_host_self served = rw (eq_refl (codes "https"), eq_refl served)

module _ (parse_url : Bytes → Option (Bytes × Bytes)) where
  -- No origin, an opaque one, or the server's own over HTTPS.
  abbrev pub IsOwnOrigin : Request → Type 0
  IsOwnOrigin r =
      (r.origin ≡ [])
      ⊎ (r.origin ≡ codes "null")
      ⊎ (parse_url r.origin ≡ some (codes "https", r.host))

  same_origin_or_opaque-IsOwnOrigin :
      (r : Request) → same_origin_or_opaque parse_url r ≡ true → IsOwnOrigin r
  unfolding same_origin_or_opaque
  same_origin_or_opaque-IsOwnOrigin r h = elim (Bool-cases (r.origin == [])) [
    | inl e ↦ inl ((eq_iff r.origin []).0 e)
    | inr e ↦ elim (Bool-cases (r.origin == codes "null")) [
      | inl f ↦ inr (inl ((eq_iff r.origin (codes "null")).0 f))
      | inr f ↦ inr (inr (own_host-eq-true r.host (parse_url r.origin) (ground arith)))
    ]
  ]

  IsOwnOrigin-same_origin_or_opaque :
      (r : Request) → IsOwnOrigin r → same_origin_or_opaque parse_url r ≡ true
  unfolding same_origin_or_opaque
  IsOwnOrigin-same_origin_or_opaque r (inl e) = ground (arith, eq_iff r.origin [])
  IsOwnOrigin-same_origin_or_opaque r (inr (inl e)) = ground (arith, eq_iff r.origin (codes "null"))
  IsOwnOrigin-same_origin_or_opaque r (inr (inr e)) =
      let own : own_host r.host (parse_url r.origin) ≡ true = rw e (own_host_self r.host) in
      ground (arith, own)

  -- The request is of a safe method, or comes from the own origin with the token of the session.
  abbrev pub IsGuarded : Request → Bytes → Type 0
  IsGuarded r token =
      (is_safe r.method ≡ true)
      ⊎ (IsOwnOrigin r × (is_empty token ≡ false) × (r.csrf_header ≡ token))

  csrf_matches-eq-true :
      (token header : Bytes)
      → csrf_matches parse_url (some token) header ≡ true
      → (is_empty token ≡ false) × (header ≡ token)
  unfolding csrf_matches constant_time_string_equal
  csrf_matches-eq-true token header h = ground (arith, eq_iff token header)

  csrf_matches_self :
      (token : Bytes) → is_empty token ≡ false → csrf_matches parse_url (some token) token ≡ true
  unfolding csrf_matches constant_time_string_equal
  csrf_matches_self token h = ground (arith, eq_refl token, eq_refl (length token))

  require_csrf-passed :
      (next : Handler) (m : Manager) (id : Bytes) (sess : Session) (r : Request)
      → ((require_csrf parse_url next m (context_of id sess) r ≡ next m (context_of id sess) r)
          × IsGuarded r sess.csrf_token)
        ⊎ ((ctx : Context) → (require_csrf parse_url next m (context_of id sess) r).0 ≢ passed ctx)
  unfolding require_csrf
  require_csrf-passed next m id sess r = elim (Bool-cases (is_safe r.method)) [
    | inl e ↦ inl (rw e refl, inl e)
    | inr e ↦ elim (Bool-cases (same_origin_or_opaque parse_url r)) [
      | inr f ↦ inr (λ ctx h. ground (arith, e, f))
      | inl f ↦ elim (Bool-cases (csrf_matches parse_url (some sess.csrf_token) r.csrf_header)) [
        | inr g ↦ inr (λ ctx h. ground (arith, e, f, g))
        | inl g ↦
            let (some_token, same) = csrf_matches-eq-true sess.csrf_token r.csrf_header g in
            inl (rw (e, f, g) refl, inr (same_origin_or_opaque-IsOwnOrigin r f, some_token, same))
      ]
    ]
  ]

  pub IsGuarded-require_csrf :
      (next : Handler) (m : Manager) (id : Bytes) (sess : Session) (r : Request)
      → IsGuarded r sess.csrf_token
      → require_csrf parse_url next m (context_of id sess) r ≡ next m (context_of id sess) r
  unfolding require_csrf
  IsGuarded-require_csrf next m id sess r (inl e) = rw e refl
  IsGuarded-require_csrf next m id sess r (inr (own, some_token, e)) =
      elim (Bool-cases (is_safe r.method)) [
        | inl f ↦ rw f refl
        | inr f ↦
            let match : csrf_matches parse_url (some sess.csrf_token) r.csrf_header ≡ true =
              rw e (csrf_matches_self sess.csrf_token some_token) in
            rw (f, IsOwnOrigin-same_origin_or_opaque r own, match) refl
      ]

  -- A session of an administrator is live, and the request is guarded against forgery.
  pub record IsAuthorized (m : Manager) (r : Request) (ctx : Context) : Type 0 where
    pub id : Bytes
    pub sess : Session
    pub session : HasSession m r id sess
    pub admin : sess.principal.role ≡ role_admin
    pub guarded : IsGuarded r sess.csrf_token
    pub context : ctx ≡ context_of id sess

module _ (parse_url : Bytes → Option (Bytes × Bytes)) (encode : Bytes → Bytes)
    (hmac : Bytes → Bytes → Bytes) where
  write-IsAuthorized :
      (m : Manager) (r : Request) (ctx : Context)
      → (serve parse_url encode hmac write m r).0 ≡ passed ctx
      → IsAuthorized parse_url m r ctx
  unfolding serve route_handler require_admin is_admin
  write-IsAuthorized m r ctx h = elim (authenticate-cases m r) [
    | inl e ↦ absurd (ground (arith, e))
    | inr (id, sess, s, e) ↦ elim (Bool-cases (sess.principal.role == role_admin)) [
      | inr other ↦ absurd (ground (arith, e, other))
      | inl same ↦
          let served : (require_csrf parse_url pass m (context_of id sess) r).0 ≡ passed ctx =
            ground (arith, e, same) in
          elim (require_csrf-passed parse_url pass m id sess r) [
            | inr shut ↦ absurd (shut ctx served)
            | inl (through, guarded) ↦ record {
              id = id;
              sess = sess;
              session = s;
              admin = (eq_iff sess.principal.role role_admin).0 same;
              guarded = guarded;
              context = ground (arith, through, served);
            }
          ]
    ]
  ]

  IsAuthorized-write :
      (m : Manager) (r : Request) (ctx : Context)
      → IsAuthorized parse_url m r ctx
      → (serve parse_url encode hmac write m r).0 ≡ passed ctx
  unfolding serve route_handler require_admin is_admin
  IsAuthorized-write m r ctx a =
      let e = HasSession-authenticate m r a.id a.sess a.session in
      let role : (a.sess.principal.role == role_admin) ≡ true =
        (eq_iff a.sess.principal.role role_admin).1 a.admin in
      let through = IsGuarded-require_csrf parse_url pass m a.id a.sess r a.guarded in
      ground (arith, e, role, through, a.context)

-- A request reaches a handler behind `RequireAdmin(RequireCSRF(…))`, with a context, exactly when its
-- cookie names a stored session of an administrator that is not over at its arrival, it is of a safe
-- method or comes from no other origin and carries the session's token, which is not empty, and the
-- context is the session's.
pub serve-write_iff :
    (parse_url : Bytes → Option (Bytes × Bytes)) (encode : Bytes → Bytes)
    (hmac : Bytes → Bytes → Bytes) (m : Manager) (r : Request) (ctx : Context)
    → ((serve parse_url encode hmac write m r).0 ≡ passed ctx) ↔ IsAuthorized parse_url m r ctx
serve-write_iff parse_url encode hmac m r ctx = (
  write-IsAuthorized parse_url encode hmac m r ctx,
  IsAuthorized-write parse_url encode hmac m r ctx,
)
