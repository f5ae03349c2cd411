-- ===== src/Adminauth/Holds.antt =====
-- internal/adminauth/adminauth.go: what every step of a login keeps of the manager.
use boot_optim_distribution.Base.{
  int_eq, All, delete, insert, All-delete, Bytes, bytes_eq, nat_eq, bool_eq, Bool-cases, ℕ, ◌+◌,
  ◌≡◌, refl, ◌⊎◌, inl, inr, true, Option, none, some, List, [], ◌∷◌,
}
use boot_optim_distribution.Adminauth.Password.{PasswordHash, verify}
use boot_optim_distribution.Adminauth.Types.{role_admin, Session, Manager, Context, Form, Request}
use boot_optim_distribution.Adminauth.Sessions.{expired, is_admin, prune, same_origin_or_opaque}
use boot_optim_distribution.Adminauth.Login.{
  encoded, random_token, render_rejected_login, opened, open_session, with_tokens, offer_login,
}

module _ (P : Bytes × Session → Type 0) where
  All-prune : (now : ℕ) (table : List (Bytes × Session)) → All P table → All P (prune now table)
  unfolding prune
  All-prune now [] h = tt
  All-prune now ((key, sess) ∷ rest) (p, h) = elim (Bool-cases (expired now sess)) [
    | inl e ↦ rw (e, prune) (All-prune now rest h)
    | inr e ↦ rw (e, prune) (p, All-prune now rest h)
  ]

-- The request is a successful login form for a session.
module _ (parse_url : Bytes → Option (Bytes × Bytes)) (hmac : Bytes → Bytes → Bytes)
    (username : Bytes) (hash : PasswordHash) (ttl : ℕ) where
  pub record IsLogin (r : Request) (sess : Session) : Type 0 where
    pub form : Form
    pub posted : r.form ≡ some form
    pub own_origin : same_origin_or_opaque parse_url r ≡ true
    pub cookie : r.login_cookie ≡ some form.csrf_token
    pub named : form.username ≡ username
    pub proved : verify hmac hash form.password ≡ some true
    pub principal : sess.principal ≡ record { username = username; role = role_admin }
    pub expires : sess.expires_at ≡ r.handled + ttl

  -- The manager has this configuration, its sessions have `P`, and the random reads to come `Q`.
  pub record Holds (P : Bytes × Session → Type 0) (Q : Option Bytes → Type 0) (m : Manager)
      : Type 0 where
    pub same_username : m.username ≡ username
    pub same_hash : m.password_hash ≡ hash
    pub same_ttl : m.session_ttl ≡ ttl
    pub of_sessions : All P m.sessions
    pub of_random : All Q m.random

  module _ {P : Bytes × Session → Type 0} {Q : Option Bytes → Type 0} where
    Holds-random :
        (m : Manager) (reads : List (Option Bytes))
        → Holds P Q m
        → All Q reads
        → Holds P Q (record m { random = reads })
    Holds-random m reads h left = record {
      same_username = h.same_username;
      same_hash = h.same_hash;
      same_ttl = h.same_ttl;
      of_sessions = h.of_sessions;
      of_random = left;
    }

    pub Holds-sessions :
        (m : Manager) (table : List (Bytes × Session))
        → Holds P Q m
        → All P table
        → Holds P Q (record m { sessions = table })
    Holds-sessions m table h kept = record {
      same_username = h.same_username;
      same_hash = h.same_hash;
      same_ttl = h.same_ttl;
      of_sessions = kept;
      of_random = h.of_random;
    }

  module _ (encode : Bytes → Bytes) (success_path : Bytes) (P : Bytes × Session → Type 0)
      (Q : Option Bytes → Type 0) where
    -- A login of the request makes sessions with `P`.
    abbrev pub Opens : Request → Type 0
    Opens r =
        (id : Bytes) (sess : Session) (drawn : Option Bytes)
        → Q drawn
        → encoded encode drawn ≡ some id
        → IsLogin r sess
        → P (id, sess)

    random_token-cases :
        (m : Manager)
        → Holds P Q m
        → Holds P Q (random_token encode m).1
          × (((random_token encode m).0 ≡ none)
              ⊎ ((t : Bytes) × (drawn : Option Bytes) × Q drawn
                  × (encoded encode drawn ≡ some t)
                  × ((random_token encode m).0 ≡ some t)))
    unfolding random_token
    random_token-cases m h = go m.random refl
      where
        go :
            (reads : List (Option Bytes))
            → m.random ≡ reads
            → Holds P Q (random_token encode m).1
              × (((random_token encode m).0 ≡ none)
                  ⊎ ((t : Bytes) × (drawn : Option Bytes) × Q drawn
                      × (encoded encode drawn ≡ some t)
                      × ((random_token encode m).0 ≡ some t)))
        go [] e = rw e (Holds-random m [] h tt, inl refl)
        go (none ∷ rest) e =
            let left : All Q (none ∷ rest) = rw e at h.of_random in
            rw e (Holds-random m rest h left.1, inl refl)
        go (some buf ∷ rest) e =
            let left : All Q (some buf ∷ rest) = rw e at h.of_random in
            rw e (Holds-random m rest h left.1, inr (encode buf, some buf, left.0, refl, refl))

    pub render_rejected_login-Holds :
        (m : Manager) (r : Request) (status : ℕ) (message : Bytes)
        → Holds P Q m
        → Holds P Q (render_rejected_login encode m r status message).1
    unfolding render_rejected_login
    render_rejected_login-Holds m r status message h =
        let (h', c) = random_token-cases m h in
        elim c [
          | inl e ↦ rw (e, render_rejected_login) h'
          | inr (t, drawn, q, f, e) ↦ rw (e, render_rejected_login) h'
        ]

    pub offer_login-Holds :
        (m : Manager) (ctx : Context) (r : Request)
        → Holds P Q m
        → Holds P Q (offer_login parse_url encode hmac success_path m ctx r).1
    unfolding offer_login
    offer_login-Holds m ctx r h =
        let (h', c) = random_token-cases m h in
        elim (Bool-cases (is_admin ctx)) [
          | inl a ↦ rw (a, offer_login) h
          | inr a ↦ elim c [
            | inl e ↦ rw (a, offer_login, e) h'
            | inr (t, drawn, q, f, e) ↦ rw (a, offer_login, e) h'
          ]
        ]

    open_session-Holds :
        (m : Manager) (r : Request) (id token : Bytes)
        → Holds P Q m
        → P (id, opened m token r.handled)
        → Holds P Q (open_session encode success_path m r id token).1
    unfolding open_session insert
    open_session-Holds m r id token h p =
        let table = (id, opened m token r.handled) ∷ delete id m.sessions in
        Holds-sessions m (prune r.pruned table) h
          (All-prune P r.pruned table (p, All-delete P id m.sessions h.of_sessions))

    pub with_tokens-Holds :
        (m : Manager) (r : Request)
        → Holds P Q m
        → ((sess : Session)
            → sess.principal ≡ record { username = username; role = role_admin }
            → sess.expires_at ≡ r.handled + ttl
            → IsLogin r sess)
        → Opens r
        → Holds P Q (with_tokens encode success_path m r).1
    unfolding with_tokens
    with_tokens-Holds m r h checked opens =
        let (h₁, c₁) = random_token-cases m h in
        let m₁ = (random_token encode m).1 in
        let (h₂, c₂) = random_token-cases m₁ h₁ in
        let m₂ = (random_token encode m₁).1 in
        elim c₁ [
          | inl e ↦ rw (e, with_tokens) h₁
          | inr (id, drawn, q, f, e) ↦ elim c₂ [
            | inl g ↦ rw (e, with_tokens, g) h₂
            | inr (token, _, _, _, g) ↦
                rw (e, with_tokens, g)
                  (open_session-Holds m₂ r id token h₂ (
                    opens id (opened m₂ token r.handled) drawn q f (
                      checked (opened m₂ token r.handled) (rw (h₂.same_username) refl)
                        (rw (h₂.same_ttl) refl))))
          ]
        ]
