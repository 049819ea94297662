-- ===== src/Examples/Memory.antt =====
-- A table in memory and a key store in memory, with the documented behaviour of TypeORM's
-- repositories and of the Redis commands.
use Prim.Native.String
use nestjs_cqrs_saga.Prelude.{
  ℕ, suc, ◌<◌, String, ◌≡◌, ◌≢◌, ◌⊎◌, refl, inl, inr, Bool, true, false, Option, none, some, List,
  [], ◌∷◌, arith, ◌==◌, eq_iff, if◌then◌else◌, ◌<+>◌, All, Option-cases, filter, take, drop, count,
  reverse, reverse_perm,
}
use nestjs_cqrs_saga.Outcome.{Outcome, ok}
use nestjs_cqrs_saga.Table.{Repository, lookup, upsert, modify_at, Holds}
use nestjs_cqrs_saga.World.{Redis}
use text.Mathlib.TextLemmas.{length-append}

module _ {Row : Type 0} (key : Row → String) where
  -- The first row that matches.
  unfoldable pub first : (Row → Bool) → List Row → Option Row
  first p [] = none
  first p (r ∷ t) = if p r then some r else first p t

  pub first-key : (i : String) (t : List Row) → first (λ r. key r == i) t ≡ lookup key i t
  unfolding first
  first-key i [] = refl
  first-key i (r ∷ t) = ground (arith, first-key i t)

  pub first_sound :
      (p : Row → Bool) (t : List Row) (r : Row) → first p t ≡ some r → (p r ≡ true) × Holds r t
  unfolding first
  first_sound p [] r h = cc
  first_sound p (x ∷ t) r h = ground (arith, first_sound p t r)

  pub first_complete : (p : Row → Bool) (t : List Row) → first p t ≡ none → All (λ r. p r ≡ false) t
  unfolding first
  first_complete p [] h = tt
  first_complete p (x ∷ t) h = ground (arith, first_complete p t)

  -- A text longer than every key.
  unfoldable pub longer : List Row → String
  longer [] = "i"
  longer (r ∷ t) = key r <+> longer t

  longer_pos : (t : List Row) → 0 < String.count (longer t)
  unfolding longer
  longer_pos [] = omega arith
  longer_pos (x ∷ t) = omega (arith, length-append (key x) (longer t), longer_pos t)

  longer_lem :
      (t : List Row) (i : String) (r : Row)
      → lookup key i t ≡ some r
      → String.count i < String.count (longer t)
  unfolding longer
  longer_lem [] i r h = cc
  longer_lem (x ∷ t) i r h =
      ground
        (arith, eq_iff (key x) i, length-append (key x) (longer t), longer_pos t, longer_lem t i r)

  pub longer_fresh : (t : List Row) → lookup key (longer t) t ≡ none
  longer_fresh t = elim (Option-cases (lookup key (longer t) t)) [
    | inl e ↦ e
    | inr (r, e) ↦ absurd (omega (arith, longer_lem t (longer t) r e))
  ]

  pub saves_ok :
      (r r' : Row) (t t' : List Row)
      → ◌≡◌ {A = Outcome (Row × List Row)} (ok (r, upsert key r t)) (ok (r', t'))
      → (r' ≡ r) × (t' ≡ upsert key r t)
  saves_ok r r' t t' h = ground arith

  held :
      (b : Bool) (x r : Row) (t : List Row)
      → Holds r (if b then x ∷ t else t)
      → ((b ≡ true) × (r ≡ x)) ⊎ Holds r t
  held true x r t (inl same) = inl (refl, same)
  held true x r t (inr k) = inr k
  held false x r t k = inr k

  holds :
      (b : Bool) (x r : Row) (t : List Row)
      → ((b ≡ true) × (r ≡ x)) ⊎ Holds r t
      → Holds r (if b then x ∷ t else t)
  holds true x r t (inl (e, same)) = inl same
  holds false x r t (inl (e, same)) = cc
  holds true x r t (inr k) = inr k
  holds false x r t (inr k) = k

  pub filter_sound :
      (p : Row → Bool) (t : List Row) (r : Row) → Holds r (filter p t) → (p r ≡ true) × Holds r t
  filter_sound p [] r h = absurd h
  filter_sound p (x ∷ t) r h = elim (held (p x) x r (filter p t) h) [
    | inl (e, same) ↦ (rw same e, inl same)
    | inr k ↦ let rest = filter_sound p t r k in (rest.0, inr rest.1)
  ]

  pub filter_complete :
      (p : Row → Bool) (t : List Row) (r : Row) → Holds r t → p r ≡ true → Holds r (filter p t)
  filter_complete p [] r h e = absurd h
  filter_complete p (x ∷ t) r (inl same) e =
      holds (p x) x r (filter p t) (inl (rw (← same) e, same))
  filter_complete p (x ∷ t) r (inr k) e =
      holds (p x) x r (filter p t) (inr (filter_complete p t r k e))

  pub updates_ok :
      (i : String) (f : Row → Row) (t t' : List Row)
      → ◌≡◌ {A = Outcome (List Row)} (ok (modify_at key i f t)) (ok t')
      → t' ≡ modify_at key i f t
  updates_ok i f t t' h = ground arith

  -- The place of a row's identifier in the table, as the time of its creation.
  unfoldable pub place : String → List Row → ℕ
  place i [] = 0
  place i (r ∷ t) = if key r == i then 0 else suc (place i t)

  unfoldable pub memory : Repository key
  unfolding first longer
  memory = record {
    find_one = first;
    find = filter;
    newest = λ p t. reverse (filter p t);
    find_page = λ p s n t. take n (drop s (reverse (filter p t)));
    arrangement = λ p s n t. reverse (filter p t);
    count_rows = count;
    created_at = λ t r. place (key r) t;
    update = λ i f t. ok (modify_at key i f t);
    newest_perm = λ p t. reverse_perm (filter p t);
    find_page_lem = λ p s n t h. refl;
    arrangement_fixed = λ p s n t h. refl;
    arrangement_perm = λ p s n t. reverse_perm (filter p t);
    count_rows_lem = λ p t. refl;
    update_ok = updates_ok;
    find_sound = filter_sound;
    find_complete = filter_complete;
    save = λ r t. ok (r, upsert key r t);
    generate = longer;
    find_one-key = first-key;
    find_one_sound = first_sound;
    find_one_complete = first_complete;
    save_ok = saves_ok;
    generate_fresh = longer_fresh;
  }

unfoldable pub get : String → List (String × String) → Option String
get k [] = none
get k ((j, v) ∷ ks) = if j == k then some v else get k ks

unfoldable pub without : String → List (String × String) → List (String × String)
without k [] = []
without k ((j, v) ∷ ks) = if j == k then without k ks else (j, v) ∷ without k ks

pub get-without :
    (k j : String) (ks : List (String × String))
    → get j (without k ks) ≡ (if k == j then none else get j ks)
unfolding get without
get-without k j [] = ground arith
get-without k j ((i, v) ∷ ks) =
    ground (arith, eq_iff k j, eq_iff i k, eq_iff i j, get-without k j ks)

unfoldable pub set_nx_px :
    String → String → ℕ → List (String × String) → Outcome Bool × List (String × String)
set_nx_px k v ttl ks = elim (get k ks) [ none ↦ (ok true, (k, v) ∷ ks) | some _ ↦ (ok false, ks) ]

unfoldable pub del : String → List (String × String) → ℕ × List (String × String)
unfolding without
del k ks = elim (get k ks) [ none ↦ (0, without k ks) | some _ ↦ (1, without k ks) ]

unfoldable pub pexpire : String → ℕ → List (String × String) → ℕ × List (String × String)
pexpire k ttl ks = elim (get k ks) [ none ↦ (0, ks) | some _ ↦ (1, ks) ]

module _ (k j v : String) (ttl : ℕ) (ks : List (String × String)) where
  pub set_free : (set_nx_px k v ttl ks).0 ≡ ok true → get k ks ≡ none
  unfolding set_nx_px
  set_free h = ground arith

  pub get-set :
      (set_nx_px k v ttl ks).0 ≡ ok true
      → get j (set_nx_px k v ttl ks).1 ≡ (if k == j then some v else get j ks)
  unfolding set_nx_px get
  get-set h = ground arith

  pub set_taken :
      (set_nx_px k v ttl ks).0 ≡ ok false → (get k ks ≢ none) × ((set_nx_px k v ttl ks).1 ≡ ks)
  unfolding set_nx_px
  set_taken h = ground arith

  pub set_keeps :
      (held : String) → get k ks ≡ some held → get k (set_nx_px k v ttl ks).1 ≡ some held
  unfolding set_nx_px
  set_keeps held h = ground arith

  pub del_one : get k ks ≡ some v → (del k ks).0 ≡ 1
  unfolding del
  del_one h = ground arith

  pub get-del : get j (del k ks).1 ≡ (if k == j then none else get j ks)
  unfolding del
  get-del = ground (arith, get-without k j ks)

  pub pexpire_one : get k ks ≡ some v → (pexpire k ttl ks).0 ≡ 1
  unfolding pexpire
  pexpire_one h = ground arith

  pub get-pexpire : get j (pexpire k ttl ks).1 ≡ get j ks
  unfolding pexpire
  get-pexpire = ground arith

unfoldable pub memory_redis : Redis
unfolding get set_nx_px del pexpire
memory_redis = record {
  get = get;
  set_nx_px = set_nx_px;
  del = del;
  pexpire = pexpire;
  eval_error = λ ks. none;
  set_nx_px_free = λ k v ttl ks. set_free k k v ttl ks;
  get-set_nx_px = get-set;
  set_nx_px_taken = λ k v ttl ks. set_taken k k v ttl ks;
  set_nx_px_keeps = λ k v held ttl ks. set_keeps k k v ttl ks held;
  del_found = λ k v ks. del_one k k v 0 ks;
  get-del = λ k j ks. get-del k j "" 0 ks;
  pexpire_found = λ k v ttl ks. pexpire_one k k v ttl ks;
  get-pexpire = λ k j ttl ks. get-pexpire k j "" ttl ks;
}
