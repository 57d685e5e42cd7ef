-- ===== src/Api/Access/Sessions.antt =====
-- main.py: how long a token that `login` gave opens an account.
use evidencedesk.Prelude.{
  ℕ, ◌+◌, ◌*◌, ◌≤◌, ◌<◌, ◌≡◌, ◌↔◌, refl, ap, sym, ◌∙◌, arith, Text, Bool, true, false, Option, none,
  some, not, ◌||◌, leb, if◌then◌else◌, Option-cases, inl, inr,
}
use evidencedesk.Auth.{Role, same_role}
use evidencedesk.Security.{
  Claims, Codec, seconds, microseconds, checked, create_access_token, decode_access_token,
}
use evidencedesk.Db.{User, Desk}
use evidencedesk.Db.Table.{find}
use evidencedesk.Api.Responses.{Detail, Response, reply, refused}
use evidencedesk.Api.Access.{
  user_key, find_username, principal_of_user, confirmed, authenticated, current_user, login_user,
  login,
}

same_role_iff : (a b : Role) → (same_role a b ≡ true) ↔ (a ≡ b)
same_role_iff a b = ground arith

clash : false ≡ true → ⊥
clash e = cc

-- The row of the account is there, active, and still has the role.
abbrev pub IsOpen : User → Option User → Type 0
IsOpen user none = ⊥
IsOpen user (some row) = (row.is_active ≡ true) × (row.role ≡ user.role)

replied_text : (a b : Text) → reply 200 a ≡ reply 200 b → a ≡ b
replied_text a b e = cc

module _ (codec : Codec) (secret : Text) where
  module _ (issued : ℕ) where
    -- The user whose password was verified, and the token
    abbrev Opened : Text → ℕ → Text → Option User → Type 0
    Opened password minutes token none = ⊥
    Opened password minutes token (some user) =
        (user.is_active ≡ true)
        × (codec.verify_password password user.password_hash ≡ true)
        × (create_access_token codec (principal_of_user codec secret issued user) secret issued
              (minutes * 60 * microseconds)
            ≡ token)

    login_user-Opened :
        (password : Text) (minutes correlation_id : ℕ) (found : Option User) (desk : Desk)
        (token : Text)
        → (login_user codec secret issued password minutes correlation_id found desk).0
          ≡ reply 200 token
        → Opened password minutes token found
    login_user-Opened password minutes correlation_id none desk token e = cc
    login_user-Opened password minutes correlation_id (some user) desk token e =
        let (fine, answered) =
          let_in (not user.is_active || not (codec.verify_password password user.password_hash)) _ _
            token refl e in
        let (active, verified) = neither user.is_active _ fine in
        (active, verified, replied_text _ _ answered)
      where
        neither : (a b : Bool) → (not a || not b) ≡ false → (a ≡ true) × (b ≡ true)
        neither true true h = (refl, refl)
        neither true false h = cc
        neither false b h = cc

        let_in :
            (denied : Bool) (x y : Response Text × Desk) (given : Text)
            → x.0 ≡ refused 401 Detail.invalid_credentials
            → (if denied then x else y).0 ≡ reply 200 given
            → (denied ≡ false) × (y.0 ≡ reply 200 given)
        let_in true x y given r h = cc
        let_in false x y given r h = (refl, h)

  confirmed_iff :
      (later : ℕ) (user : User) (row : Option User)
      → (confirmed codec secret later (principal_of_user codec secret later user) row
          ≡ reply 200 (principal_of_user codec secret later user))
        ↔ IsOpen user row
  confirmed_iff later user none = (λ e. cc, λ h. elim h [ ])
  confirmed_iff later user (some row) =
      decided row.is_active (same_role row.role user.role) (same_role_iff row.role user.role)
    where
      decided :
          (active kept : Bool)
          → (kept ≡ true) ↔ (row.role ≡ user.role)
          → ((if not active || not kept
                then refused 401 Detail.invalid_token
                else reply 200 (principal_of_user codec secret later user))
              ≡ reply 200 (principal_of_user codec secret later user))
            ↔ ((active ≡ true) × (row.role ≡ user.role))
      decided true true same = (λ e. (refl, same.0 refl), λ h. refl)
      decided true false same = (λ e. cc, λ h. absurd (clash (same.1 h.1)))
      decided false kept same = (λ e. cc, λ h. absurd (clash h.0))

  timely_iff :
      (later : ℕ) (user : User) (after : Desk) (exp : ℕ) (expired : Bool)
      → (expired ≡ false) ↔ (seconds later < exp)
      → (authenticated codec secret later after
            (if expired then none else some (principal_of_user codec secret later user))
          ≡ reply 200 (principal_of_user codec secret later user))
        ↔ ((seconds later < exp) × IsOpen user (find user_key user.id after.users))
  timely_iff later user after exp true time = (λ e. cc, λ h. absurd (clash (sym (time.1 h.0))))
  timely_iff later user after exp false time =
      let shown = confirmed_iff later user (find user_key user.id after.users) in
      (λ e. (time.0 refl, shown.0 e), λ h. shown.1 h.1)

  -- A token of `login` is that of a user of this name whose password was verified. As long as PyJWT reads
  -- back what was signed, from the second of its issue on, the token opens the account at any later
  -- time and on any later desk exactly if it has not expired and the row of the user is there, active
  -- and of the same role as at the login.
  pub login_lasts :
      (issued later minutes correlation_id : ℕ) (username password token : Text) (desk after : Desk)
      → (login codec secret issued username password minutes correlation_id desk).0
        ≡ reply 200 token
      → ((claims : Claims) (clock : ℕ)
          → claims.iat ≤ seconds clock
          → codec.decode secret (codec.encode secret claims) clock ≡ some claims)
      → issued ≤ later
      → (user : User) × (find_username username desk.users ≡ some user)
        × (codec.verify_password password user.password_hash ≡ true)
        × ((current_user codec secret later (some token) after
              ≡ reply 200 (principal_of_user codec secret issued user))
            ↔ ((seconds later < seconds (issued + minutes * 60 * microseconds))
                × IsOpen user (find user_key user.id after.users)))
  unfolding login current_user decode_access_token create_access_token
  login_lasts issued later minutes correlation_id username password token desk after e reads more =
      elim (Option-cases (find_username username desk.users)) [
        | inl none_found ↦ absurd (cc (rw none_found at e))
        | inr (user, found) ↦
            let (active, verified, signed) =
              login_user-Opened issued password minutes correlation_id (some user) desk token (
                ap (λ o. (login_user codec secret issued password minutes correlation_id o desk).0)
                  (sym found)
                ∙ e) in
            let claims : Claims = record {
              sub = user.id;
              username = user.username;
              role = some user.role;
              iat = seconds issued;
              exp = seconds (issued + minutes * 60 * microseconds);
            } in
            let read =
              ap (λ s. codec.decode secret s later) (sym signed)
              ∙ reads claims later (omega arith) in
            let same =
              ap (λ o. authenticated codec secret later after (checked codec later o)) read in
            let timely =
              timely_iff later user after claims.exp (leb claims.exp (seconds later))
                (ground arith) in
            (user, found, verified, (λ h. timely.0 (sym same ∙ h), λ h. same ∙ timely.1 h))
      ]
