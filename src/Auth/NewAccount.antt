-- ===== src/Auth/NewAccount.antt =====
-- What `register` of src/auth/auth.service.ts stores for an email that is free.
use nestjs_cqrs_saga.Prelude.{
  String, ◌≡◌, ◌∙◌, inl, inr, false, none, some, List, [], ◌∷◌, ◌++◌, arith,
}
use nestjs_cqrs_saga.Outcome.{ok, Outcome-cases}
use nestjs_cqrs_saga.Table.{upsert_fresh}
use nestjs_cqrs_saga.Table.Unique.{modify_at_last}
use nestjs_cqrs_saga.Entity.{User, UserRole, UserStatus}
use nestjs_cqrs_saga.World.{World, Platform}
use nestjs_cqrs_saga.Auth.{
  Credentials, RegisterDto, AuthTokens, generate_tokens, update_refresh_token, create_user,
}

module _ (p : Platform) (c : Credentials) where
  -- The account that a registration asks for.
  abbrev pub new_user : RegisterDto → World → User
  new_user dto w = record {
    id = p.users.generate w.users;
    email = dto.email;
    password = c.hash 12 dto.password w;
    first_name = dto.first_name;
    last_name = dto.last_name;
    role = UserRole.customer;
    status = UserStatus.active;
    email_verified = false;
    refresh_token = none;
  }

  -- The accounts with the new one behind the others.
  abbrev pub with_user : RegisterDto → World → World
  with_user dto w = record w { users = w.users ++ new_user dto w ∷ [] }

  -- The new account with the hash of its first refresh token.
  abbrev pub registered : RegisterDto → (refresh_token : String) → World → User
  registered dto token w = record (new_user dto w) {
    refresh_token = some (c.hash 12 token (with_user dto w));
  }

  pub save_user_lem :
      (dto : RegisterDto) (w : World) (r : User) (t : List User)
      → p.users.save (new_user dto w) w.users ≡ ok (r, t)
      → (r ≡ new_user dto w) × (t ≡ w.users ++ new_user dto w ∷ [])
  save_user_lem dto w r t e =
      let law = p.users.save_ok (new_user dto w) r w.users t e in
      (
        law.0,
        law.1 ∙ upsert_fresh (λ r. r.id) (new_user dto w) w.users (p.users.generate_fresh w.users),
      )

  pub create_user_lem :
      (dto : RegisterDto) (w : World) (u : User) (tokens : AuthTokens)
      → (create_user p c dto w).0 ≡ ok (u, tokens)
      → (u ≡ new_user dto w)
        × ((create_user p c dto w).1
            ≡ record w { users = w.users ++ registered dto tokens.refresh_token w ∷ [] })
  unfolding create_user generate_tokens update_refresh_token
  create_user_lem dto w u tokens h = elim (Outcome-cases (p.users.save (new_user dto w) w.users)) [
    | inl ((r, t), e) ↦
        let saved = save_user_lem dto w r t e in
        let f : User → User = λ (r : User). record r {
          refresh_token = some (c.hash 12 tokens.refresh_token (with_user dto w));
        } in
        elim (Outcome-cases (p.users.update (new_user dto w).id f (with_user dto w).users)) [
          | inl (t', e') ↦ ground (
            arith,
            saved,
            p.users.update_ok (new_user dto w).id f (with_user dto w).users t' e',
            modify_at_last (λ (r : User). r.id) f (new_user dto w) w.users
                (p.users.generate_fresh w.users),
          )
          | inr (x, e') ↦ absurd (ground (arith, saved))
        ]
    | inr (x, e) ↦ absurd (ground arith)
  ]
