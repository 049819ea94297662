-- ===== src/Auth/Sessions.antt =====
-- The refresh tokens of src/auth/auth.service.ts, and who may act on an account.
use nestjs_cqrs_saga.Prelude.{
  Bool, true, String, ◌≡◌, ◌∙◌, refl, inl, inr, true, Option, none, some, arith, ◌==◌, eq_iff,
  eq_refl, if◌then◌else◌, truthy_or-some, Option-cases, subst,
}
use nestjs_cqrs_saga.Outcome.{ok, err, Outcome-cases, http, unauthorized}
use nestjs_cqrs_saga.Table.{lookup, modify_at, Holds}
use nestjs_cqrs_saga.Table.Unique.{lookup-modify_at}
use nestjs_cqrs_saga.Entity.{User, UserStatus}
use nestjs_cqrs_saga.World.{World, Platform}
use nestjs_cqrs_saga.Store.{update_user}
use nestjs_cqrs_saga.Auth.{
  Credentials, AuthTokens, JwtPayload, generate_tokens, update_refresh_token, login, logout,
  refresh_tokens, validate_user, validate_payload, validate_credentials, is_active,
}

module _ (p : Platform) (c : Credentials) where
  -- What a query by identifier finds once a refresh token is replaced.
  find_updated :
      (i : String) (o : Option String) (w : World)
      → (update_user p i (λ r. record r { refresh_token = o }) w).0 ≡ ok tt
      → p.users.find_one
          (λ r. r.id == i)
          (update_user p i (λ r. record r { refresh_token = o }) w).1.users
        ≡ (elim (lookup (λ r. r.id) i w.users) [
          | none ↦ none
          | some r ↦ some (record r { refresh_token = o })
        ])
  find_updated i o w done =
      let f : User → User = λ (r : User). record r { refresh_token = o } in
      elim (Outcome-cases (p.users.update i f w.users)) [
        | inl (t, e) ↦
            let same : (update_user p i f w).1.users ≡ modify_at (λ r. r.id) i f w.users =
              ground (arith, e, p.users.update_ok i f w.users t e) in
            rw same (
              p.users.find_one-key i (modify_at (λ r. r.id) i f w.users)
              ∙ ground (
                arith,
                lookup-modify_at (λ (r : User). r.id) i i f w.users (λ r. refl),
                eq_refl i,
              ))
        | inr (x, e) ↦ absurd (ground (arith, done, e))
      ]

  -- After a logout that returns, every token is refused as a refresh token of the account, and the
  -- refusal changes nothing.
  pub refresh_tokens-logout :
      (i token : String) (w : World)
      → (logout p c i w).0 ≡ ok tt
      → let w' = (logout p c i w).1 in
        refresh_tokens p c i token w' ≡ (err (http unauthorized "Access denied"), w')
  unfolding logout refresh_tokens
  refresh_tokens-logout i token w done = ground (arith, find_updated i none w done)

  login_lem :
      (u : User) (tokens : AuthTokens) (w : World)
      → (login p c u w).0 ≡ ok tokens
      → let o = some (c.hash 12 tokens.refresh_token w) in
        ((login p c u w).1 ≡ (update_user p u.id (λ r. record r { refresh_token = o }) w).1)
        × ((update_user p u.id (λ r. record r { refresh_token = o }) w).0 ≡ ok tt)
  unfolding login generate_tokens update_refresh_token
  login_lem u tokens w done = ground (arith, done)

  -- After a login of an account of the table that returns, and while the accounts stay as it left them,
  -- a refresh with a token of which bcrypt reads the same part as of the refresh token handed out acts
  -- exactly as a new login of the stored account; with any other token it is refused and changes nothing.
  pub refresh_tokens-login :
      (u r : User) (tokens : AuthTokens) (token : String) (w v : World)
      → lookup (λ x. x.id) u.id w.users ≡ some r
      → (login p c u w).0 ≡ ok tokens
      → v.users ≡ (login p c u w).1.users
      → refresh_tokens p c u.id token v ≡ (
          if c.hashed_part token == c.hashed_part tokens.refresh_token
          then login p c (record r { refresh_token = some (c.hash 12 tokens.refresh_token w) }) v
          else (err (http unauthorized "Access denied"), v))
  unfolding refresh_tokens login
  refresh_tokens-login u r tokens token w v there done same =
      let after = login_lem u tokens w done in
      let found = find_updated u.id (some (c.hash 12 tokens.refresh_token w)) w after.1 in
      ground (
        arith,
        there,
        same,
        after.0,
        found,
        c.matches-hash 12 token tokens.refresh_token w,
        c.hash_filled 12 tokens.refresh_token w,
        truthy_or-some (c.hash 12 tokens.refresh_token w) ""
            (c.hash_filled 12 tokens.refresh_token w),
      )

  active : (s : UserStatus) → is_active s ≡ true → s ≡ UserStatus.active
  active UserStatus.active h = refl
  active UserStatus.inactive h = cc
  active UserStatus.suspended h = cc

  -- The check of a token's payload lets in the active account of its identifier only.
  pub validate_payload-lets_in :
      (payload : JwtPayload) (u : User) (w : World)
      → (validate_payload p c payload w).0 ≡ ok u
      → (u.id ≡ payload.sub) × (u.status ≡ UserStatus.active) × Holds u w.users
  unfolding validate_payload
  validate_payload-lets_in payload u w h =
      let test : User → Bool = λ r. r.id == payload.sub in
      elim (Option-cases (p.users.find_one test w.users)) [
        | inl e ↦ absurd (ground (arith, h, e))
        | inr (r, e) ↦
            let s = p.users.find_one_sound test w.users r e in
            let on : is_active r.status ≡ true = ground (arith, h, e) in
            let same : r ≡ u = ground (arith, h, e) in
            subst (λ x. (x.id ≡ payload.sub) × (x.status ≡ UserStatus.active) × Holds x w.users)
              same ((eq_iff r.id payload.sub).0 s.0, active r.status on, s.1)
      ]

  -- The check of credentials lets in an active account of the email only whose stored hash the password
  -- matches.
  pub validate_credentials-lets_in :
      (email password : String) (u : User) (w : World)
      → (validate_credentials p c email password w).0 ≡ ok u
      → (u.email ≡ email)
        × (c.matches password u.password ≡ true)
        × (u.status ≡ UserStatus.active)
        × Holds u w.users
  unfolding validate_credentials validate_user
  validate_credentials-lets_in email password u w h =
      let test : User → Bool = λ r. r.email == email in
      elim (Option-cases (p.users.find_one test w.users)) [
        | inl e ↦ absurd (ground (arith, h, e))
        | inr (r, e) ↦
            let s = p.users.find_one_sound test w.users r e in
            let on : is_active r.status ≡ true = ground (arith, h, e) in
            let fits : c.matches password r.password ≡ true = ground (arith, h, e) in
            let same : r ≡ u = ground (arith, h, e) in
            subst
              (λ x.
                (x.email ≡ email)
                × (c.matches password x.password ≡ true)
                × (x.status ≡ UserStatus.active)
                × Holds x w.users)
              same ((eq_iff r.email email).0 s.0, fits, active r.status on, s.1)
      ]
