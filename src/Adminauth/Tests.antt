-- ===== src/Adminauth/Tests.antt =====
-- The theorems on the administrator's sessions at concrete requests, with stand-ins for the library
-- functions.
use boot_optim_distribution.Base.{
  int_eq, ℤ, length, length-append, take, Exists, length-take, lookup, delete, insert, Bytes, codes,
  bytes_beq, bytes_eq, split, ◌==◌, nat_eq, bool_eq, pos, ok, ℕ, zero, suc, ◌≡◌, refl, ◌↔◌, inl,
  inr, Option, none, some, [], ◌∷◌, ◌++◌, arith,
}
use boot_optim_distribution.Adminauth.Password.{
  PasswordHash, rounds_of, salt_of, digest_of, parse_parts, parse_password_hash, put_uint32,
  rounds_loop, block_loop, pbkdf2_sha256, verify,
}
use boot_optim_distribution.Adminauth.Password.Rfc.{
  IsHash, rfc_block, rfc_blocks, pbkdf2_sha256-rfc_blocks,
}
use boot_optim_distribution.Adminauth.Bounds.{IsReady, new-IsReady}
use boot_optim_distribution.Adminauth.Types.{
  role_admin, Session, Manager, anonymous, Request, passed,
}
use boot_optim_distribution.Adminauth.Sessions.{
  Config, made, new, prune, context_of, authenticate_id, authenticate, is_admin, require_admin,
  constant_time_string_equal, same_origin_or_opaque, csrf_matches, require_csrf,
}
use boot_optim_distribution.Adminauth.Login.{
  random_token, open_session, with_tokens, check_credentials, check_form, handle_login_post,
  handle_login, success_path_of, login_handler,
}
use boot_optim_distribution.Adminauth.Routes.{login, logout, write, route_handler, serve, serve_all}
use boot_optim_distribution.Adminauth.Guards.{HasSession, IsAuthorized, serve-write_iff}
use boot_optim_distribution.Adminauth.Origin.{LoggedIn, serve_all-LoggedIn, logout-authenticate}

abbrev zeros : ℕ → Bytes
zeros zero = []
zeros (suc n) = 0 ∷ zeros n

-- A text of 32 bytes that the key and the message go into.
mixed : Bytes → Bytes → Bytes
mixed key text = take 32 (text ++ (key ++ zeros 32))

mixed-IsHash : (key text : Bytes) → IsHash (mixed key text)
unfolding mixed
mixed-IsHash key text =
    length-take 32 (text ++ (key ++ zeros 32))
      (omega (arith, length-append text (key ++ zeros 32), length-append key (zeros 32)))

same : Bytes → Bytes
same bytes = bytes

decoded : Bytes → Option Bytes
decoded bytes = some bytes

two_hundred_thousand : Bytes → Option ℤ
two_hundred_thousand digits = some (pos 200000)

no_url : Bytes → Option (Bytes × Bytes)
no_url text = none

pbkdf2_sha256-rfc_blocks_example :
    (pbkdf2_sha256 mixed (codes "pw") (codes "salt") (pos 3) 40
      ≡ some (take 40 (rfc_blocks mixed (codes "pw") (codes "salt") 3 2)))
    × (length (take 40 (rfc_blocks mixed (codes "pw") (codes "salt") 3 2)) ≡ 40)
pbkdf2_sha256-rfc_blocks_example =
    pbkdf2_sha256-rfc_blocks mixed mixed-IsHash (codes "pw") (codes "salt") 3 40

abbrev config : Config
config = record {
  username = codes "root";
  password_hash =
      codes "$bootoptim$pbkdf2-sha256$200000$0123456789abcdef$0123456789abcdef0123456789abcdef";
  session_ttl = pos 0;
}

abbrev strong_hash : PasswordHash
strong_hash = record {
  rounds = pos 200000;
  salt = codes "0123456789abcdef";
  digest = codes "0123456789abcdef0123456789abcdef";
}

abbrev fresh_manager : Manager
fresh_manager = record {
  username = codes "root";
  password_hash = strong_hash;
  session_ttl = 28800000000000;
  random = [];
  sessions = [];
}

makes : new same two_hundred_thousand decoded [] config ≡ ok fresh_manager
unfolding same two_hundred_thousand decoded new made parse_password_hash parse_parts split rounds_of
    salt_of digest_of bytes_beq
makes = refl

new-IsReady_example :
    (ready : IsReady fresh_manager) × ((password : Bytes)
      → verify mixed strong_hash password
        ≡ some
            (rfc_block mixed password strong_hash.salt ready.strong.rounds 1 == strong_hash.digest))
new-IsReady_example =
    new-IsReady same two_hundred_thousand decoded [] mixed mixed-IsHash config fresh_manager makes

-- A manager whose password is "pw", and that has random bytes left for one login.
abbrev manager : Manager
manager = record {
  username = codes "root";
  password_hash = record {
    rounds = pos 1;
    salt = [];
    digest = 0 ∷ 0 ∷ 0 ∷ 1 ∷ 112 ∷ 119 ∷ zeros 26;
  };
  session_ttl = 300000000000;
  random = some (codes "id") ∷ some (codes "tok") ∷ [];
  sessions = [];
}

abbrev request : Request
request = record {
  method = codes "POST";
  host = codes "h";
  origin = [];
  csrf_header = codes "tok";
  session_cookie = some (codes "id");
  login_cookie = some (codes "c");
  form = some (record { csrf_token = codes "c"; username = codes "root"; password = codes "pw" });
  arrived = 7;
  handled = 7;
  pruned = 8;
}

abbrev opened_session : Session
opened_session = record {
  principal = record { username = codes "root"; role = role_admin };
  csrf_token = codes "tok";
  expires_at = 300000000007;
}

abbrev with_session : Manager
with_session = record manager { random = []; sessions = (codes "id", opened_session) ∷ [] }

logs_in : (serve no_url same mixed login manager request).1 ≡ with_session
unfolding same mixed no_url serve authenticate authenticate_id lookup delete insert route_handler
    login_handler success_path_of handle_login handle_login_post check_form check_credentials verify
    pbkdf2_sha256 block_loop rounds_loop put_uint32 take constant_time_string_equal
    same_origin_or_opaque with_tokens random_token open_session prune bytes_beq
logs_in = refl

writes :
    (serve no_url same mixed write with_session request).0
    ≡ passed (context_of (codes "id") opened_session)
unfolding same no_url serve authenticate authenticate_id lookup route_handler require_admin is_admin
    require_csrf same_origin_or_opaque csrf_matches constant_time_string_equal bytes_beq
writes = refl

serve-write_iff_example :
    ((serve no_url same mixed write with_session request).0
      ≡ passed (context_of (codes "id") opened_session))
    ↔ IsAuthorized no_url with_session request (context_of (codes "id") opened_session)
serve-write_iff_example =
    serve-write_iff no_url same mixed with_session request (context_of (codes "id") opened_session)

then_writes :
    (serve no_url same mixed write
      (serve_all no_url same mixed manager ((login, request) ∷ []))
      request).0
    ≡ passed (context_of (codes "id") opened_session)
unfolding serve_all
then_writes = rw logs_in writes

serve_all-LoggedIn_example : Exists (LoggedIn no_url same mixed manager 7) ((login, request) ∷ [])
serve_all-LoggedIn_example =
    serve_all-LoggedIn no_url same mixed manager ((login, request) ∷ []) request
      (context_of (codes "id") opened_session) refl then_writes

has_session : HasSession with_session request (codes "id") opened_session
unfolding lookup bytes_beq
has_session = record { presented = refl; named = refl; stored = refl; running = omega arith }

logout-authenticate_example :
    (authenticate
      (serve_all no_url same mixed
        (serve no_url same mixed logout with_session request).1
        ((login, request) ∷ []))
      request).0
    ≡ anonymous
logout-authenticate_example =
    logout-authenticate no_url same mixed with_session request (codes "id") opened_session
      ((login, request) ∷ []) request has_session refl (inr (inl refl, refl, refl)) refl tt refl
