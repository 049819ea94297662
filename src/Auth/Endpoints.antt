-- ===== src/Auth/Endpoints.antt =====
-- src/auth/auth.controller.ts. The guards have put the account into the request.
use nestjs_cqrs_saga.Prelude.{
  String, ◌≡◌, inl, inr, Bool, false, [], ◌∷◌, ◌++◌, arith, ◌==◌, ◌<+>◌, eq_iff, eq_refl,
  Option-cases,
}
use nestjs_cqrs_saga.Outcome.{ok, Outcome-cases}
use nestjs_cqrs_saga.Table.{Holds-last}
use nestjs_cqrs_saga.Table.Unique.{append-IsKeyed, find_one_unique}
use nestjs_cqrs_saga.Entity.{User, UserRole, UserStatus}
use nestjs_cqrs_saga.World.{World, Platform, Action, pure, ◌>>=◌, ◌>>◌}
use nestjs_cqrs_saga.Auth.{
  Credentials, RegisterDto, AuthTokens, register, create_user, login, logout, get_current_user,
}
use nestjs_cqrs_saga.Auth.Accounts.{HasAccounts}
use nestjs_cqrs_saga.Auth.NewAccount.{registered, create_user_lem}

-- The account as `AuthResponseDto` shows it.
pub record UserView : Type 0 where
  pub id : String
  pub email : String
  pub first_name : String
  pub last_name : String
  pub role : UserRole
  pub status : UserStatus

pub record AuthResponseDto : Type 0 where
  pub access_token : String
  pub refresh_token : String
  pub user : UserView

-- `Omit<User, 'password' | 'refreshToken'>`, with the name that the getter gives.
pub record Profile : Type 0 where
  pub id : String
  pub email : String
  pub first_name : String
  pub last_name : String
  pub role : UserRole
  pub status : UserStatus
  pub email_verified : Bool
  pub full_name : String

-- The response of a registration and of a login.
abbrev pub auth_response_of : User → AuthTokens → AuthResponseDto
auth_response_of user tokens = record {
  access_token = tokens.access_token;
  refresh_token = tokens.refresh_token;
  user = record {
    id = user.id;
    email = user.email;
    first_name = user.first_name;
    last_name = user.last_name;
    role = user.role;
    status = user.status;
  };
}

-- `get fullName()`
abbrev pub full_name : User → String
full_name user = user.first_name <+> " " <+> user.last_name

abbrev pub profile_of : User → Profile
profile_of user = record {
  id = user.id;
  email = user.email;
  first_name = user.first_name;
  last_name = user.last_name;
  role = user.role;
  status = user.status;
  email_verified = user.email_verified;
  full_name = full_name user;
}

module _ (p : Platform) (c : Credentials) where
  unfoldable pub register_endpoint : RegisterDto → Action AuthResponseDto
  register_endpoint dto = do created ← register p c dto; pure (auth_response_of created.0 created.1)

  unfoldable pub login_endpoint : (request_user : User) → Action AuthResponseDto
  login_endpoint request_user = do
    tokens ← login p c request_user
    pure (auth_response_of request_user tokens)

  unfoldable pub logout_endpoint : (request_user : User) → Action String
  logout_endpoint request_user = logout p c request_user.id >> pure "Logout successful"

  unfoldable pub get_profile : (request_user : User) → Action Profile
  get_profile request_user = do user ← get_current_user p c request_user.id; pure (profile_of user)

  -- Where identifiers and emails are unique, the account of a registration that returns has a profile
  -- at once: for a request of that account, under its identifier, the profile shows the names and the
  -- email that were registered, a customer that is active and whose email is not verified.
  pub get_profile-register :
      (dto : RegisterDto) (response : AuthResponseDto) (user : User) (w : World)
      → HasAccounts w
      → (register_endpoint dto w).0 ≡ ok response
      → user.id ≡ response.user.id
      → let w' = (register_endpoint dto w).1 in
        get_profile user w' ≡ (
          ok (record {
            id = response.user.id;
            email = dto.email;
            first_name = dto.first_name;
            last_name = dto.last_name;
            role = UserRole.customer;
            status = UserStatus.active;
            email_verified = false;
            full_name = dto.first_name <+> " " <+> dto.last_name;
          }),
          w',
        )
  unfolding register_endpoint register get_profile get_current_user
  get_profile-register dto response user w h done same =
      elim (Option-cases (p.users.find_one (λ r. r.email == dto.email) w.users)) [
        | inl e ↦ elim (Outcome-cases (create_user p c dto w).0) [
          | inl ((u, tokens), created) ↦
              let after = create_user_lem p c dto w u tokens created in
              let x = registered p c dto tokens.refresh_token w in
              let found =
                find_one_unique (λ r. r.id) p.users (λ r. r.id == user.id) x (w.users ++ x ∷ [])
                  (append-IsKeyed (λ r. r.id) x w.users h.0 (p.users.generate_fresh w.users))
                  (Holds-last (λ r. r.id) x w.users)
                  (ground (arith, after.0, created, done, same, eq_refl user.id))
                  (λ r k.
                    ground (arith, (eq_iff r.id user.id).0 k, after.0, created, done, same)) in
              ground (arith, after, found, created, done, same, e)
          | inr (x, failed) ↦ absurd (ground (arith, e, failed, done))
        ]
        | inr (r, e) ↦ absurd (ground (arith, done, e))
      ]
