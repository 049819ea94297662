-- ===== src/Payment/Pending.antt =====
-- The payments that src/payment/commands/handlers/payment.handlers.ts has stored and whose simulated
-- end is still to come, and what the writes of its methods do to them.
use nestjs_cqrs_saga.Prelude.{
  String, ◌≡◌, ◌≢◌, refl, sym, subst, ◌⊎◌, inl, inr, Option, none, some, List, [], ◌∷◌, ◌++◌, arith,
  ◌==◌, eq_iff, append-nil, ◌∙◌, All, All-append, Bool-cases,
}
use nestjs_cqrs_saga.Table.{
  lookup, upsert, IsKeyed, lookup-upsert, lookup-upsert_self, upsert-IsKeyed,
}
use nestjs_cqrs_saga.Table.Unique.{append-IsKeyed, middle-IsKeyed, All-middle}
use nestjs_cqrs_saga.Entity.{Payment, PaymentStatus, BusEvent}
use nestjs_cqrs_saga.Message.{Body}
use nestjs_cqrs_saga.World.{Task, publish_all, publish_message, settle_payment}
use nestjs_cqrs_saga.Payment.Outcomes.{SamePurchase}

-- The steps of a payment's status: a payment in processing ends once, and only one that is completed
-- is refunded.
abbrev pub PaymentMove : PaymentStatus → PaymentStatus → Type 0
PaymentMove PaymentStatus.processing t = t ≢ PaymentStatus.pending
PaymentMove PaymentStatus.completed t = (t ≡ PaymentStatus.completed) ⊎ (t ≡ PaymentStatus.refunded)
PaymentMove s t = t ≡ s

pub PaymentMove-refl : (s : PaymentStatus) → PaymentMove s s
PaymentMove-refl PaymentStatus.pending = refl
PaymentMove-refl PaymentStatus.processing = λ e. ground arith
PaymentMove-refl PaymentStatus.completed = inl refl
PaymentMove-refl PaymentStatus.failed = refl
PaymentMove-refl PaymentStatus.refunded = refl

pub PaymentMove-trans :
    (s t u : PaymentStatus) → PaymentMove s t → PaymentMove t u → PaymentMove s u
PaymentMove-trans PaymentStatus.pending t u h k = subst (λ x. PaymentMove x u) h k
PaymentMove-trans PaymentStatus.processing PaymentStatus.pending u h k = absurd (h refl)
PaymentMove-trans PaymentStatus.processing PaymentStatus.processing u h k = k
PaymentMove-trans PaymentStatus.processing PaymentStatus.completed u h (inl e) = λ x. ground arith
PaymentMove-trans PaymentStatus.processing PaymentStatus.completed u h (inr e) = λ x. ground arith
PaymentMove-trans PaymentStatus.processing PaymentStatus.failed u h k = λ x. ground arith
PaymentMove-trans PaymentStatus.processing PaymentStatus.refunded u h k = λ x. ground arith
PaymentMove-trans PaymentStatus.completed t u (inl e) k = subst (λ x. PaymentMove x u) e k
PaymentMove-trans PaymentStatus.completed t u (inr e) k = inr (subst (λ x. PaymentMove x u) e k)
PaymentMove-trans PaymentStatus.failed t u h k = subst (λ x. PaymentMove x u) h k
PaymentMove-trans PaymentStatus.refunded t u h k = subst (λ x. PaymentMove x u) h k

pub SamePurchase-trans : (a b c : Payment) → SamePurchase a b → SamePurchase b c → SamePurchase a c
SamePurchase-trans a b c h k = ground arith

-- What may become of the row under one identifier: it stays, with its order, payer, amount and
-- method, or it is a new one that has started in processing.
abbrev pub PaymentEvolves : Option Payment → Option Payment → Type 0
PaymentEvolves none none = Unit {0}
PaymentEvolves none (some s) = PaymentMove PaymentStatus.processing s.status
PaymentEvolves (some r) none = ⊥
PaymentEvolves (some r) (some s) = PaymentMove r.status s.status × SamePurchase r s

pub PaymentEvolves-refl : (o : Option Payment) → PaymentEvolves o o
PaymentEvolves-refl none = tt
PaymentEvolves-refl (some r) = (PaymentMove-refl r.status, (refl, refl, refl, refl, refl))

pub PaymentEvolves-trans :
    (a b c : Option Payment) → PaymentEvolves a b → PaymentEvolves b c → PaymentEvolves a c
PaymentEvolves-trans none none c h k = k
PaymentEvolves-trans none (some s) none h k = absurd k
PaymentEvolves-trans none (some s) (some u) h k =
    PaymentMove-trans PaymentStatus.processing s.status u.status h k.0
PaymentEvolves-trans (some r) none c h k = absurd h
PaymentEvolves-trans (some r) (some s) none h k = absurd k
PaymentEvolves-trans (some r) (some s) (some u) h k =
    (PaymentMove-trans r.status s.status u.status h.0 k.0, SamePurchase-trans r s u h.1 k.1)

-- The payments that the deferred callbacks of the simulation have captured.
abbrev pub settles : List Task → List Payment
settles [] = []
settles (publish_all es ∷ ts) = settles ts
settles (publish_message topic b ∷ ts) = settles ts
settles (settle_payment a c ∷ ts) = a ∷ settles ts

pub settles-append : (ts us : List Task) → settles (ts ++ us) ≡ settles ts ++ settles us
settles-append [] us = refl
settles-append (publish_all es ∷ ts) us = settles-append ts us
settles-append (publish_message topic b ∷ ts) us = settles-append ts us
settles-append (settle_payment a c ∷ ts) us = ground (arith, settles-append ts us)

-- A publication that is deferred leaves them as they are.
pub settles-message :
    (topic : String) (b : Body) (ts : List Task)
    → settles (ts ++ publish_message topic b ∷ []) ≡ settles ts
settles-message topic b ts =
    settles-append ts (publish_message topic b ∷ []) ∙ append-nil (settles ts)

pub settles-events :
    (es : List BusEvent) (ts : List Task) → settles (ts ++ publish_all es ∷ []) ≡ settles ts
settles-events es ts = settles-append ts (publish_all es ∷ []) ∙ append-nil (settles ts)

-- Every payment whose end is to come is stored as the callback has it, in processing, and no two
-- callbacks have the same payment; primary keys are unique.
pub record HasPending (payments waiting : List Payment) : Type 0 where
  pub keyed : IsKeyed (λ r. r.id) payments
  pub once : IsKeyed (λ r. r.id) waiting
  pub stored :
      All
        (λ a. (lookup (λ r. r.id) a.id payments ≡ some a) × (a.status ≡ PaymentStatus.processing))
        waiting

-- What a step does to the stored payments and to those whose end is to come.
abbrev pub PaymentsMove : List Payment → List Payment → List Payment → List Payment → Type 0
PaymentsMove payments waiting payments' waiting' =
    HasPending payments waiting
    → ((i : String)
        → PaymentEvolves (lookup (λ r. r.id) i payments) (lookup (λ r. r.id) i payments'))
      × HasPending payments' waiting'

-- A row is written: it evolves, and the others stay.
upsert-PaymentEvolves :
    (r : Payment) (t : List Payment)
    → PaymentEvolves (lookup (λ x. x.id) r.id t) (some r)
    → (i : String)
    → PaymentEvolves (lookup (λ x. x.id) i t) (lookup (λ x. x.id) i (upsert (λ x. x.id) r t))
upsert-PaymentEvolves r t m i =
    rw (lookup-upsert (λ (x : Payment). x.id) i r t) (elim (Bool-cases (r.id == i)) [
      | inl e ↦
          rw e
            (subst (λ j. PaymentEvolves (lookup (λ x. x.id) j t) (some r)) ((eq_iff r.id i).0 e) m)
      | inr e ↦ rw e (PaymentEvolves-refl (lookup (λ x. x.id) i t))
    ])

-- A write under an identifier that no callback has leaves their payments stored.
upsert-stored :
    (r : Payment) (t q : List Payment)
    → All (λ a. (lookup (λ x. x.id) a.id t ≡ some a) × (a.status ≡ PaymentStatus.processing)) q
    → lookup (λ x. x.id) r.id q ≡ none
    → All
        (λ a.
          (lookup (λ x. x.id) a.id (upsert (λ x. x.id) r t) ≡ some a)
          × (a.status ≡ PaymentStatus.processing))
        q
upsert-stored r t [] h missing = tt
upsert-stored r t (a ∷ q) h missing = (
  (
    ground
        (arith, lookup-upsert (λ (x : Payment). x.id) a.id r t, eq_iff r.id a.id, eq_iff a.id r.id),
    h.0.1,
  ),
  upsert-stored r t q h.1 (ground arith),
)

-- No payment whose end is to come is under a free identifier, nor under that of a payment that has
-- come to its end.
not_waiting :
    (i : String) (t q : List Payment)
    → All (λ a. (lookup (λ x. x.id) a.id t ≡ some a) × (a.status ≡ PaymentStatus.processing)) q
    → ((r : Payment) → lookup (λ x. x.id) i t ≡ some r → r.status ≢ PaymentStatus.processing)
    → lookup (λ x. x.id) i q ≡ none
not_waiting i t [] h ended = refl
not_waiting i t (a ∷ q) h ended = elim (Bool-cases (a.id == i)) [
  | inl e ↦
      absurd
        (ended a (subst (λ j. lookup (λ x. x.id) j t ≡ some a) ((eq_iff a.id i).0 e) h.0.0) h.0.1)
  | inr e ↦ rw e (not_waiting i t q h.1 ended)
]

-- A new payment in processing and its callback.
pub process-PaymentsMove :
    (a : Payment) (t q : List Payment)
    → a.status ≡ PaymentStatus.processing
    → lookup (λ x. x.id) a.id t ≡ none
    → PaymentsMove t q (upsert (λ x. x.id) a t) (q ++ a ∷ [])
process-PaymentsMove a t q new free h =
    let missing = not_waiting a.id t q h.stored (λ r e. absurd (ground arith)) in
    (
      upsert-PaymentEvolves a t (rw (free, new) (λ e. ground arith)),
      record {
        keyed = upsert-IsKeyed (λ x. x.id) a t h.keyed;
        once = append-IsKeyed (λ x. x.id) a q h.once missing;
        stored =
            All-append _ q (a ∷ []) (upsert-stored a t q h.stored missing)
              ((lookup-upsert_self (λ (x : Payment). x.id) a t, new), tt);
      },
    )

-- A callback that ends without a write.
pub drop-PaymentsMove :
    (a : Payment) (t before after : List Payment)
    → PaymentsMove t (before ++ a ∷ after) t (before ++ after)
drop-PaymentsMove a t before after h = (
  λ i. PaymentEvolves-refl (lookup (λ x. x.id) i t),
  record {
    keyed = h.keyed;
    once = (middle-IsKeyed (λ x. x.id) a before after h.once).1;
    stored = (All-middle _ a before after h.stored).1;
  },
)

-- A callback that writes its payment as completed or failed.
pub end-PaymentsMove :
    (a b : Payment) (t before after : List Payment)
    → SamePurchase a b
    → b.status ≢ PaymentStatus.pending
    → PaymentsMove t (before ++ a ∷ after) (upsert (λ x. x.id) b t) (before ++ after)
end-PaymentsMove a b t before after same ended h =
    let once = middle-IsKeyed (λ x. x.id) a before after h.once in
    let stored = All-middle _ a before after h.stored in
    let found : lookup (λ x. x.id) b.id t ≡ some a =
      subst (λ j. lookup (λ x. x.id) j t ≡ some a) (sym same.0) stored.0.0 in
    let moves : PaymentMove a.status b.status =
      subst (λ s. PaymentMove s b.status) (sym stored.0.1) ended in
    (
      upsert-PaymentEvolves b t (subst (λ o. PaymentEvolves o (some b)) (sym found) (moves, same)),
      record {
        keyed = upsert-IsKeyed (λ x. x.id) b t h.keyed;
        once = once.1;
        stored = upsert-stored b t (before ++ after) stored.1 (rw same.0 once.0);
      },
    )

-- A refund of a payment that is stored as completed.
pub refund-PaymentsMove :
    (a : Payment) (t q : List Payment)
    → lookup (λ x. x.id) a.id t ≡ some a
    → a.status ≡ PaymentStatus.completed
    → PaymentsMove t q (upsert (λ x. x.id) (record a { status = PaymentStatus.refunded }) t) q
refund-PaymentsMove a t q found done h =
    let b : Payment = record a { status = PaymentStatus.refunded } in
    let missing = not_waiting a.id t q h.stored (λ r e s. ground arith) in
    (
      upsert-PaymentEvolves b t (rw (found, done) (inr refl, (refl, refl, refl, refl, refl))),
      record {
        keyed = upsert-IsKeyed (λ x. x.id) b t h.keyed;
        once = h.once;
        stored = upsert-stored b t q h.stored missing;
      },
    )
