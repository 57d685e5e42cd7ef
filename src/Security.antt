-- ===== src/Security.antt =====
-- apps/api/evidencedesk_api/security.py. PyJWT and pwdlib are the parameter `Codec`: signing a
-- payload and reading it back, hashing a password and verifying one. Times are microseconds.
use evidencedesk.Prelude.{ℕ, ◌+◌, ◌/◌, Text, Bool, Option, none, some, leb, if◌then◌else◌}
use evidencedesk.Auth.{Role, UserPrincipal}

-- The claims of a token. `role` is `none` where the text is no role.
pub record Claims : Type 0 where
  pub sub : ℕ
  pub username : Text
  pub role : Option Role
  pub iat : ℕ
  pub exp : ℕ

-- `decode` gives `none` where `jwt.decode` raises, or where a claim is missing; it looks at the clock,
-- since a token that is issued in the future is refused. `hash_password` draws a salt.
pub record Codec : Type 0 where
  pub encode : Text → Claims → Text
  pub decode : Text → Text → ℕ → Option Claims
  pub hash_password : ℕ → Text → Text
  pub verify_password : Text → Text → Bool

abbrev pub microseconds : ℕ
microseconds = 1_000_000

-- `int(t.timestamp())`
abbrev pub seconds : ℕ → ℕ
seconds t = t / microseconds

module _ (codec : Codec) where
  unfoldable pub create_access_token : UserPrincipal → Text → ℕ → ℕ → Text
  create_access_token user secret issued_at ttl = codec.encode secret (record {
    sub = user.id;
    username = user.username;
    role = some user.role;
    iat = seconds issued_at;
    exp = seconds (issued_at + ttl);
  })

  abbrev pub principal_of : Claims → Option Role → Option UserPrincipal
  principal_of claims none = none
  principal_of claims (some role) =
      some (record { id = claims.sub; username = claims.username; role = role })

  abbrev pub checked : ℕ → Option Claims → Option UserPrincipal
  checked checked_at none = none
  checked checked_at (some claims) =
      if leb claims.exp (seconds checked_at) then none else principal_of claims claims.role

  -- `clock` is the time that PyJWT reads. `none` is any of the exceptions that `current_user` answers with "invalid_token".
  unfoldable pub decode_access_token : Text → Text → ℕ → ℕ → Option UserPrincipal
  decode_access_token token secret clock checked_at =
      checked checked_at (codec.decode secret token clock)
