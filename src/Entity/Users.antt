-- ===== src/Entity/Users.antt =====
-- src/user/entities/user.entity.ts, without the columns that only the database fills.
use nestjs_cqrs_saga.Prelude.{String, Option, Bool}

pub data UserRole : Type 0 where
  admin customer merchant : UserRole

pub data UserStatus : Type 0 where
  active inactive suspended : UserStatus

pub UserStatus-discrete : Discrete UserStatus
UserStatus-discrete = hlevel

pub record User : Type 0 where
  pub id : String
  pub email : String
  pub password : String
  pub first_name : String
  pub last_name : String
  pub role : UserRole
  pub status : UserStatus
  pub email_verified : Bool
  pub refresh_token : Option String
