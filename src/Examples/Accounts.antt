-- ===== src/Examples/Accounts.antt =====
-- The theorems on accounts and sessions, with credentials in memory.
use nestjs_cqrs_saga.Prelude.{◌<+>◌}
use nestjs_cqrs_saga.Prelude.{◌≡◌, refl, false, none, some, [], ◌∷◌, ◌==◌}
use nestjs_cqrs_saga.Outcome.{ok, err, http, unauthorized}
use nestjs_cqrs_saga.Entity.{User, UserRole, UserStatus}
use nestjs_cqrs_saga.World.{World}
use nestjs_cqrs_saga.Auth.{
  Credentials, AuthTokens, RegisterDto, register, login, logout, refresh_tokens, validate_user,
  generate_tokens, update_refresh_token, create_user,
}
use nestjs_cqrs_saga.Auth.Accounts.{HasAccounts, accounts-HasAccounts, validate_user-register}
use nestjs_cqrs_saga.Auth.Sessions.{refresh_tokens-login}
use nestjs_cqrs_saga.Examples.Services.{services, empty_world, filled}

-- A hash is its text with a suffix, and a token is its secret.
abbrev plain_texts : Credentials
plain_texts = record {
  hash = λ n s w. s <+> "-sha256";
  matches = λ s hashed. (s <+> "-sha256") == hashed;
  hashed_part = λ s. s <+> "-sha256";
  matches-hash = λ n a b w. refl;
  hash_filled = λ n a w. filled a;
  sign = λ payload secret expires_in w. ok secret;
  secret = "access";
  expires_in = "15m";
  refresh_secret = "refresh";
  refresh_expires_in = "7d";
}

abbrev ann : User
ann = record {
  id = "u1";
  email = "ann@example.com";
  password = "secret";
  first_name = "Ann";
  last_name = "Kim";
  role = UserRole.customer;
  status = UserStatus.active;
  email_verified = false;
  refresh_token = none;
}

abbrev ann_logged_in : User
ann_logged_in = record ann { refresh_token = some "refresh-sha256" }

abbrev with_ann : World
with_ann = record empty_world { users = ann ∷ [] }

abbrev with_session : World
with_session = record empty_world { users = ann_logged_in ∷ [] }

abbrev form : RegisterDto
form = record {
  email = "bob@example.com";
  password = "hidden";
  first_name = "Bob";
  last_name = "Lee";
}

abbrev issued : AuthTokens
issued = record { access_token = "access"; refresh_token = "refresh" }

with_ann-HasAccounts : HasAccounts with_ann
with_ann-HasAccounts = ((refl, tt), (refl, tt))

accounts-HasAccounts_example :
    HasAccounts (register services plain_texts form with_ann).1
    × HasAccounts (login services plain_texts ann with_ann).1
    × HasAccounts (refresh_tokens services plain_texts "u1" "refresh" with_ann).1
    × HasAccounts (logout services plain_texts "u1" with_ann).1
accounts-HasAccounts_example =
    accounts-HasAccounts services plain_texts with_ann form ann "u1" "refresh" with_ann-HasAccounts

validate_user-register_example :
    let w = (register services plain_texts form with_ann).1 in
    validate_user services plain_texts "bob@example.com" "guess" w ≡ (ok none, w)
unfolding services register create_user generate_tokens update_refresh_token
validate_user-register_example =
    validate_user-register services plain_texts form with_ann
      (record {
        id = "u1i";
        email = "bob@example.com";
        password = "hidden-sha256";
        first_name = "Bob";
        last_name = "Lee";
        role = UserRole.customer;
        status = UserStatus.active;
        email_verified = false;
        refresh_token = none;
      })
      issued "guess" with_ann-HasAccounts refl

refresh_tokens-login_example :
    refresh_tokens services plain_texts "u1" "stolen" with_session
    ≡ (err (http unauthorized "Access denied"), with_session)
unfolding services login generate_tokens update_refresh_token
refresh_tokens-login_example =
    refresh_tokens-login services plain_texts ann ann issued "stolen" with_ann with_session refl
      refl refl
