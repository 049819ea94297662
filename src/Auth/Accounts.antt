-- ===== src/Auth/Accounts.antt =====
-- The accounts of src/auth/auth.service.ts: unique emails, registration and credentials.
use nestjs_cqrs_saga.Prelude.{is_truthy, truthy_or}
use nestjs_cqrs_saga.Prelude.{
  String, ◌≡◌, refl, sym, subst, inl, inr, Option, none, some, List, [], ◌∷◌, ◌++◌, arith, ◌==◌,
  eq_iff, eq_refl, if◌then◌else◌, Option-cases,
}
use nestjs_cqrs_saga.Outcome.{ok, Outcome-cases, http, unauthorized}
use nestjs_cqrs_saga.Table.{lookup, modify_at, IsKeyed, Holds-last}
use nestjs_cqrs_saga.Table.Unique.{
  lookup_missing, append-IsKeyed, modify_at-IsKeyed, find_one_unique,
}
use nestjs_cqrs_saga.Entity.{User}
use nestjs_cqrs_saga.World.{
  World, Platform, Action, pure, throw, ◌>>=◌, ◌>>◌, Preserves, bind-Preserves, option-Preserves,
  if-Preserves,
}
use nestjs_cqrs_saga.Store.{update_user, find_user}
use nestjs_cqrs_saga.Auth.{
  Credentials, RegisterDto, AuthTokens, validate_user, generate_tokens, update_refresh_token, login,
  create_user, register, logout, refresh_tokens,
}
use nestjs_cqrs_saga.Auth.NewAccount.{
  new_user, with_user, registered, save_user_lem, create_user_lem,
}

-- Identifiers and emails are unique.
abbrev pub AreAccounts : List User → Type 0
AreAccounts t = IsKeyed (λ r. r.id) t × IsKeyed (λ r. r.email) t

abbrev pub HasAccounts : World → Type 0
HasAccounts w = AreAccounts w.users

modify_at-AreAccounts :
    (i : String) (o : Option String) (t : List User)
    → AreAccounts t
    → AreAccounts (modify_at (λ r. r.id) i (λ r. record r { refresh_token = o }) t)
modify_at-AreAccounts i o t h =
    let f : User → User = λ (r : User). record r { refresh_token = o } in
    (
      modify_at-IsKeyed (λ r. r.id) (λ r. r.id) i f (λ r. refl) t h.0,
      modify_at-IsKeyed (λ r. r.email) (λ r. r.id) i f (λ r. refl) t h.1,
    )

module _ (p : Platform) (c : Credentials) where
  -- A change of a refresh token.
  update_user-HasAccounts :
      (i : String) (o : Option String)
      → Preserves HasAccounts (update_user p i (λ r. record r { refresh_token = o }))
  update_user-HasAccounts i o w h =
      let f : User → User = λ (r : User). record r { refresh_token = o } in
      elim (Outcome-cases (p.users.update i f w.users)) [
        | inl (t, e) ↦
            let same : (update_user p i f w).1.users ≡ modify_at (λ r. r.id) i f w.users =
              ground (arith, e, p.users.update_ok i f w.users t e) in
            subst AreAccounts (sym same) (modify_at-AreAccounts i o w.users h)
        | inr (x, e) ↦
            let same : (update_user p i f w).1.users ≡ w.users = ground (arith, e) in
            subst AreAccounts (sym same) h
      ]

  generate_tokens-HasAccounts : (u : User) → Preserves HasAccounts (generate_tokens p c u)
  unfolding generate_tokens
  generate_tokens-HasAccounts u w h =
      let same : (generate_tokens p c u w).1.users ≡ w.users = ground arith in
      subst AreAccounts (sym same) h

  login-HasAccounts : (u : User) → Preserves HasAccounts (login p c u)
  unfolding login update_refresh_token
  login-HasAccounts u =
      bind-Preserves HasAccounts (generate_tokens p c u)
        (λ tokens. update_refresh_token p c u.id tokens.refresh_token >> pure tokens)
        (generate_tokens-HasAccounts u)
        (λ tokens.
          bind-Preserves HasAccounts (update_refresh_token p c u.id tokens.refresh_token)
            (λ x. pure tokens)
            (λ w h. update_user-HasAccounts u.id (some (c.hash 12 tokens.refresh_token w)) w h)
            (λ x w h. h))

  refresh_tokens-HasAccounts :
      (i token : String) → Preserves HasAccounts (refresh_tokens p c i token)
  unfolding refresh_tokens login
  refresh_tokens-HasAccounts i token =
      let deny : Action AuthTokens = throw (http unauthorized "Access denied") in
      option-Preserves HasAccounts (find_user p (λ r. r.id == i)) deny
        (λ user.
          if is_truthy user.refresh_token
          then (if c.matches token (truthy_or user.refresh_token "") then login p c user else deny)
          else deny)
        (λ w h. h) (λ w h. h)
        (λ user.
          if-Preserves HasAccounts (is_truthy user.refresh_token) _ deny
            (if-Preserves HasAccounts (c.matches token (truthy_or user.refresh_token ""))
              (login p c user) deny (login-HasAccounts user) (λ w h. h))
            (λ w h. h))

  -- The tokens of an account that has been saved.
  abbrev issue : User → Action (User × AuthTokens)
  issue user = do
    tokens ← generate_tokens p c user
    update_refresh_token p c user.id tokens.refresh_token
    pure (user, tokens)

  issue-HasAccounts : (u : User) → Preserves HasAccounts (issue u)
  unfolding update_refresh_token
  issue-HasAccounts u =
      bind-Preserves HasAccounts (generate_tokens p c u)
        (λ tokens. update_refresh_token p c u.id tokens.refresh_token >> pure (u, tokens))
        (generate_tokens-HasAccounts u)
        (λ tokens.
          bind-Preserves HasAccounts (update_refresh_token p c u.id tokens.refresh_token)
            (λ x. pure (u, tokens))
            (λ w h. update_user-HasAccounts u.id (some (c.hash 12 tokens.refresh_token w)) w h)
            (λ x w h. h))

  create_user-HasAccounts :
      (dto : RegisterDto) (w : World)
      → HasAccounts w
      → lookup (λ r. r.email) dto.email w.users ≡ none
      → HasAccounts (create_user p c dto w).1
  unfolding create_user
  create_user-HasAccounts dto w h free =
      elim (Outcome-cases (p.users.save (new_user p c dto w) w.users)) [
        | inl ((r, t), e) ↦
            let saved = save_user_lem p c dto w r t e in
            let n = new_user p c dto w in
            let same : (create_user p c dto w).1 ≡ (issue n (with_user p c dto w)).1 =
              ground (arith, saved) in
            let added : HasAccounts (with_user p c dto w) = (
              append-IsKeyed (λ r. r.id) n w.users h.0 (p.users.generate_fresh w.users),
              append-IsKeyed (λ r. r.email) n w.users h.1 free,
            ) in
            subst HasAccounts (sym same) (issue-HasAccounts n (with_user p c dto w) added)
        | inr (x, e) ↦
            let same : (create_user p c dto w).1 ≡ w = ground arith in
            subst HasAccounts (sym same) h
      ]

  register-HasAccounts : (dto : RegisterDto) → Preserves HasAccounts (register p c dto)
  unfolding register
  register-HasAccounts dto w h =
      elim (Option-cases (p.users.find_one (λ r. r.email == dto.email) w.users)) [
        | inl e ↦
            let same : (register p c dto w).1 ≡ (create_user p c dto w).1 = ground arith in
            let free =
              lookup_missing (λ r. r.email) dto.email w.users
                (p.users.find_one_complete (λ r. r.email == dto.email) w.users e) in
            subst HasAccounts (sym same) (create_user-HasAccounts dto w h free)
        | inr (u, e) ↦
            let same : (register p c dto w).1 ≡ w = ground arith in subst HasAccounts (sym same) h
      ]

  -- Identifiers and emails of the accounts stay unique under every operation on them, whatever fails
  -- on the way: registration, login, refreshing and logout.
  pub accounts-HasAccounts :
      (w : World) (dto : RegisterDto) (u : User) (i token : String)
      → HasAccounts w
      → HasAccounts (register p c dto w).1
        × HasAccounts (login p c u w).1
        × HasAccounts (refresh_tokens p c i token w).1
        × HasAccounts (logout p c i w).1
  unfolding logout
  accounts-HasAccounts w dto u i token h = (
    register-HasAccounts dto w h,
    login-HasAccounts u w h,
    refresh_tokens-HasAccounts i token w h,
    update_user-HasAccounts i none w h,
  )

  -- Where emails are unique, an account that is registered can be used at once: with its email and any
  -- password of which bcrypt reads the same part as of the registered one, the validation finds it as
  -- it is stored, active, as a customer and with the registered email; with any other it finds none.
  pub validate_user-register :
      (dto : RegisterDto) (w : World) (u : User) (tokens : AuthTokens) (password : String)
      → HasAccounts w
      → (register p c dto w).0 ≡ ok (u, tokens)
      → let w' = (register p c dto w).1 in
        validate_user p c dto.email password w' ≡ (
          ok (
              if c.hashed_part password == c.hashed_part dto.password
              then some (registered p c dto tokens.refresh_token w)
              else none),
          w',
        )
  unfolding register validate_user
  validate_user-register dto w u tokens password h done =
      elim (Option-cases (p.users.find_one (λ r. r.email == dto.email) w.users)) [
        | inl e ↦
            let free =
              lookup_missing (λ r. r.email) dto.email w.users
                (p.users.find_one_complete (λ r. r.email == dto.email) w.users e) in
            let created : (create_user p c dto w).0 ≡ ok (u, tokens) = ground (arith, done, e) in
            let x = registered p c dto tokens.refresh_token w in
            let after = create_user_lem p c dto w u tokens created in
            let t = w.users ++ x ∷ [] in
            let found =
              find_one_unique (λ r. r.email) p.users (λ r. r.email == dto.email) x t
                (append-IsKeyed (λ r. r.email) x w.users h.1 free)
                (Holds-last (λ r. r.id) x w.users) (eq_refl dto.email)
                (λ r e. (eq_iff r.email dto.email).0 e) in
            ground (arith, after.1, found, c.matches-hash 12 password dto.password w)
        | inr (r, e) ↦ absurd (ground (arith, done, e))
      ]
