-- ===== src/Auth.antt =====
-- src/auth/auth.service.ts, the strategies of src/auth/strategies and the endpoints of
-- src/auth/auth.controller.ts. bcrypt, the signing of tokens and the configuration are parameters.
pub mod NewAccount
pub mod Accounts
pub mod Sessions
pub mod Endpoints
use nestjs_cqrs_saga.Prelude.{
  ℕ, String, ◌≡◌, Bool, true, false, Option, none, some, ◌==◌, ◌<+>◌, if◌then◌else◌, is_truthy,
  truthy_or,
}
use nestjs_cqrs_saga.Outcome.{Outcome, ok, err, http, unauthorized, conflict}
use nestjs_cqrs_saga.Entity.{User, UserRole, UserStatus}
use nestjs_cqrs_saga.World.{World, Platform, Action, pure, throw, gets, ◌>>=◌, ◌>>◌}
use nestjs_cqrs_saga.Store.{find_user, save_user, update_user}

pub record JwtPayload : Type 0 where
  pub sub : String
  pub email : String
  pub role : UserRole

pub record AuthTokens : Type 0 where
  pub access_token : String
  pub refresh_token : String

-- What the service calls: `bcrypt.hash` and `bcrypt.compare`, `jwtService.signAsync`, and the values
-- of the configuration. bcrypt reads a part of a text, its first 72 bytes.
pub record Credentials : Type 0 where
  pub hash : (rounds : ℕ) → String → World → String
  pub matches : String → (hashed : String) → Bool
  pub hashed_part : String → String
  pub matches-hash :
      (n : ℕ) (a b : String) (w : World) → matches a (hash n b w) ≡ (hashed_part a == hashed_part b)
  pub hash_filled : (n : ℕ) (a : String) (w : World) → is_truthy (some (hash n a w)) ≡ true
  pub sign : JwtPayload → (secret expires_in : String) → World → Outcome String
  pub secret : String
  pub expires_in : String
  pub refresh_secret : String
  pub refresh_expires_in : String

pub record RegisterDto : Type 0 where
  pub email : String
  pub password : String
  pub first_name : String
  pub last_name : String

abbrev pub is_active : UserStatus → Bool
is_active UserStatus.active = true
is_active _ = false

module _ (p : Platform) (c : Credentials) where
  -- `validateUser`
  unfoldable pub validate_user : (email password : String) → Action (Option User)
  validate_user email password = do
    found ← find_user p (λ r. r.email == email)
    elim found [
      | none ↦ pure none
      | some user ↦
          if c.matches password user.password
          then (if is_active user.status
              then pure (some user)
              else throw (http unauthorized "Account is not active"))
          else pure none
    ]

  abbrev pub payload_of : User → JwtPayload
  payload_of user = record { sub = user.id; email = user.email; role = user.role }

  -- `generateTokens`
  unfoldable pub generate_tokens : User → Action AuthTokens
  generate_tokens user = do
    access ← λ w. (c.sign (payload_of user) c.secret c.expires_in w, w)
    refresh ← λ w. (c.sign (payload_of user) c.refresh_secret c.refresh_expires_in w, w)
    pure (record { access_token = access; refresh_token = refresh })

  -- `updateRefreshToken`
  unfoldable pub update_refresh_token : (user_id refresh_token : String) → Action (Unit {0})
  update_refresh_token user_id refresh_token = do
    hashed ← gets (c.hash 12 refresh_token)
    update_user p user_id (λ r. record r { refresh_token = some hashed })

  -- `login`
  unfoldable pub login : User → Action AuthTokens
  login user = do
    tokens ← generate_tokens user
    update_refresh_token user.id tokens.refresh_token
    pure tokens

  -- What `register` does with an email that is free.
  unfoldable pub create_user : RegisterDto → Action (User × AuthTokens)
  create_user dto = do
    hashed ← gets (c.hash 12 dto.password)
    i ← gets (λ w. p.users.generate w.users)
    saved ← save_user p (record {
      id = i;
      email = dto.email;
      password = hashed;
      first_name = dto.first_name;
      last_name = dto.last_name;
      role = UserRole.customer;
      status = UserStatus.active;
      email_verified = false;
      refresh_token = none;
    })
    tokens ← generate_tokens saved
    update_refresh_token saved.id tokens.refresh_token
    pure (saved, tokens)

  -- `register`
  unfoldable pub register : RegisterDto → Action (User × AuthTokens)
  register dto = do
    found ← find_user p (λ r. r.email == dto.email)
    elim found [
      | some existing ↦ throw (http conflict "Email already exists")
      | none ↦ create_user dto
    ]

  -- `logout`
  unfoldable pub logout : (user_id : String) → Action (Unit {0})
  logout user_id = update_user p user_id (λ r. record r { refresh_token = none })

  -- `refreshTokens`
  unfoldable pub refresh_tokens : (user_id refresh_token : String) → Action AuthTokens
  refresh_tokens user_id refresh_token = do
    found ← find_user p (λ r. r.id == user_id)
    let go_on : User → String → Action AuthTokens = λ (user : User) (stored : String).
        if c.matches refresh_token stored
        then (generate_tokens user >>= λ tokens.
            update_refresh_token user.id tokens.refresh_token >> pure tokens)
        else throw (http unauthorized "Access denied")
    elim found [
      | none ↦ throw (http unauthorized "Access denied")
      | some user ↦
          if is_truthy user.refresh_token
          then go_on user (truthy_or user.refresh_token "")
          else throw (http unauthorized "Access denied")
    ]

  -- `getCurrentUser`
  unfoldable pub get_current_user : (user_id : String) → Action User
  get_current_user user_id = do
    found ← find_user p (λ r. r.id == user_id)
    elim found [ none ↦ throw (http unauthorized "User not found") | some user ↦ pure user ]

  -- `JwtStrategy.validate`
  unfoldable pub validate_payload : JwtPayload → Action User
  validate_payload payload = do
    found ← find_user p (λ r. r.id == payload.sub)
    elim found [
      | none ↦ throw (http unauthorized "User not found")
      | some user ↦
          if is_active user.status
          then pure user
          else throw (http unauthorized "User account is not active")
    ]

  -- `LocalStrategy.validate`
  unfoldable pub validate_credentials : (email password : String) → Action User
  validate_credentials email password = do
    found ← validate_user email password
    elim found [ none ↦ throw (http unauthorized "Invalid credentials") | some user ↦ pure user ]
