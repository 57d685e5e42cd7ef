-- ===== src/Examples/Sessions.antt =====
-- The theorem on sessions (main.py, security.py): a login, and the token nine seconds later.
use evidencedesk.Prelude.{
  ℕ, ◌+◌, ◌*◌, ◌==◌, ◌≤◌, ◌<◌, ◌≡◌, ◌↔◌, refl, arith, true, leb, Text, Option, none, some, ◌∷◌,
  codes, if◌then◌else◌,
}
use evidencedesk.Auth.{Role}
use evidencedesk.Security.{Claims, Codec, seconds, microseconds, create_access_token}
use evidencedesk.Python.Strings.{same}
use evidencedesk.Db.{User}
use evidencedesk.Db.Table.{find}
use evidencedesk.Api.Responses.{reply}
use evidencedesk.Api.Access.{user_key, find_username, principal_of_user, current_user, login}
use evidencedesk.Api.Access.Sessions.{IsOpen, login_lasts}
use evidencedesk.Examples.{digest, empty_desk}

abbrev role_number : Option Role → ℕ
role_number none = 0
role_number (some Role.admin) = 1
role_number (some Role.analyst) = 2
role_number (some Role.reader) = 3

abbrev role_at : ℕ → Option Role
role_at n =
    if n == 1
    then some Role.admin
    else if n == 2
    then some Role.analyst
    else if n == 3
    then some Role.reader
    else none

role_at-role_number : (r : Option Role) → role_at (role_number r) ≡ r
role_at-role_number none = refl
role_at-role_number (some Role.admin) = refl
role_at-role_number (some Role.analyst) = refl
role_at-role_number (some Role.reader) = refl

-- A codec that writes the claims out after the secret, and refuses a token from the future
abbrev read_claims : Text → Text → ℕ → Option Claims
read_claims secret (first ∷ sub ∷ role ∷ iat ∷ exp ∷ username) clock =
    if first == digest secret
    then (if leb iat (seconds clock)
        then some
            (record { sub = sub; username = username; role = role_at role; iat = iat; exp = exp })
        else none)
    else none
read_claims secret _ clock = none

abbrev codec : Codec
codec = record {
  encode = λ secret claims.
      digest secret
      ∷ claims.sub
      ∷ role_number claims.role
      ∷ claims.iat
      ∷ claims.exp
      ∷ claims.username;
  decode = read_claims;
  hash_password = λ salt password. password;
  verify_password = same;
}

codec_reads :
    (claims : Claims) (clock : ℕ)
    → claims.iat ≤ seconds clock
    → codec.decode (codes "k") (codec.encode (codes "k") claims) clock ≡ some claims
codec_reads claims clock h =
    let early : leb claims.iat (seconds clock) ≡ true = ground arith in
    rw early (rw (role_at-role_number claims.role) refl)

abbrev token : Text
token = 1 ∷ 1 ∷ 1 ∷ 5 ∷ 65 ∷ codes "ana"

let_in :
    (login codec (codes "k") 5_000_000 (codes "ana") (codes "x") 1 99 empty_desk).0
    ≡ reply 200 token
unfolding login find_username create_access_token same
let_in = refl

login_lasts_example :
    (user : User) × (find_username (codes "ana") empty_desk.users ≡ some user)
    × (codec.verify_password (codes "x") user.password_hash ≡ true)
    × ((current_user codec (codes "k") 14_000_000 (some token) empty_desk
          ≡ reply 200 (principal_of_user codec (codes "k") 5_000_000 user))
        ↔ ((seconds 14_000_000 < seconds (5_000_000 + 1 * 60 * microseconds))
            × IsOpen user (find user_key user.id empty_desk.users)))
login_lasts_example =
    login_lasts codec (codes "k") 5_000_000 14_000_000 1 99 (codes "ana") (codes "x") token
      empty_desk empty_desk let_in codec_reads (omega arith)
