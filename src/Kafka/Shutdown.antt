-- ===== src/Kafka/Shutdown.antt =====
-- The consumers of src/kafka/kafka.service.ts from `subscribe` to `onModuleDestroy`.
use nestjs_cqrs_saga.Prelude.{
  String, ◌≡◌, subst, sym, false, none, some, List, [], ◌∷◌, All, ◌<+>◌, ◌==◌, if◌then◌else◌, arith,
  eq_refl, eq_iff, inl, inr, Option,
}
use nestjs_cqrs_saga.Outcome.{ok, Outcome-cases}
use nestjs_cqrs_saga.World.{Action}
use nestjs_cqrs_saga.Kafka.Library.{KafkaJs, >>-ok, >>-err}
use nestjs_cqrs_saga.Kafka.Client.{
  KafkaService, consumer_config, set_entry, disconnect_all, on_module_destroy, subscribe, register,
}

module _ (k : KafkaJs) where
  -- No consumer of some entries receives messages.
  abbrev pub Stopped : k.Broker → List (String × k.Consumer) → Type 0
  Stopped b entries = All (λ e. k.is_running e.1 b ≡ false) entries

  disconnect_all-keeps :
      (entries : List (String × k.Consumer)) (d : k.Consumer) (b : k.Broker)
      → k.is_running d b ≡ false
      → k.is_running d (disconnect_all k entries b).1 ≡ false
  unfolding disconnect_all
  disconnect_all-keeps [] d b h = h
  disconnect_all-keeps ((g, c) ∷ rest) d b h =
      let still = k.disconnect_starts_none c d b h in
      elim (Outcome-cases (k.disconnect c b).0) [
        | inl (u, e) ↦
            rw (>>-ok (k.disconnect c) (disconnect_all k rest) b u e)
              (disconnect_all-keeps rest d (k.disconnect c b).1 still)
        | inr (x, e) ↦ rw (>>-err (k.disconnect c) (disconnect_all k rest) b x e) still
      ]

  -- If the loop of the shutdown returns, all its consumers have stopped.
  disconnect_all-Stopped :
      (entries : List (String × k.Consumer)) (b : k.Broker)
      → (disconnect_all k entries b).0 ≡ ok tt
      → Stopped (disconnect_all k entries b).1 entries
  unfolding disconnect_all
  disconnect_all-Stopped [] b h = tt
  disconnect_all-Stopped ((g, c) ∷ rest) b h = elim (Outcome-cases (k.disconnect c b).0) [
    | inl (u, e) ↦
        let b' = (k.disconnect c b).1 in
        let goes_on = >>-ok (k.disconnect c) (disconnect_all k rest) b u e in
        subst (λ r. Stopped r.1 ((g, c) ∷ rest)) (sym goes_on)
          (
            disconnect_all-keeps rest c b' (k.disconnect_stops c b e),
            disconnect_all-Stopped rest b' (rw goes_on at h),
          )
    | inr (x, e) ↦ absurd (ground (arith, h, >>-err (k.disconnect c) (disconnect_all k rest) b x e))
  ]

  -- The consumer of a name.
  abbrev pub consumer_of : String → List (String × k.Consumer) → Option k.Consumer
  consumer_of name [] = none
  consumer_of name ((j, c) ∷ rest) = if j == name then some c else consumer_of name rest

  consumer_of-set_entry :
      (name : String) (c : k.Consumer) (entries : List (String × k.Consumer))
      → consumer_of name (set_entry name c entries) ≡ some c
  unfolding set_entry
  consumer_of-set_entry name c [] = simp (eq_refl)
  consumer_of-set_entry name c ((j, d) ∷ rest) =
      ground (arith, eq_iff j name, eq_refl name, consumer_of-set_entry name c rest)

module _ (k : KafkaJs) {Json : Type 0} where
  -- A shutdown that returns has stopped every consumer of the service's map.
  on_module_destroy-Stopped :
      (s : KafkaService k Json)
      → (on_module_destroy k s).0 ≡ ok tt
      → Stopped k (on_module_destroy k s).1.broker s.consumers
  unfolding on_module_destroy
  on_module_destroy-Stopped s h = elim (Outcome-cases (k.disconnect_producer s.broker).0) [
    | inl (u, e) ↦
        let goes_on = >>-ok k.disconnect_producer (disconnect_all k s.consumers) s.broker u e in
        let b = (k.disconnect_producer s.broker).1 in
        let later : (disconnect_all k s.consumers b).0 ≡ ok tt = ground (arith, goes_on, h) in
        let all = disconnect_all-Stopped k s.consumers b later in
        subst (λ r. Stopped k r.1 s.consumers) (sym goes_on) all
    | inr (x, e) ↦ absurd (
        ground (arith, h, >>-err k.disconnect_producer (disconnect_all k s.consumers) s.broker x e))
  ]

  -- A subscription that returns has entered its consumer into the map.
  subscribe-registers :
      (topic_pattern group_id : String) (handler : Json → Action (Unit {0}))
      (s : KafkaService k Json) (c : k.Consumer)
      → (k.consumer (consumer_config group_id) s.broker).0 ≡ ok c
      → (subscribe k topic_pattern group_id handler s).0 ≡ ok tt
      → (subscribe k topic_pattern group_id handler s).1.consumers
        ≡ set_entry (topic_pattern <+> "-" <+> group_id) c s.consumers
  unfolding subscribe register
  subscribe-registers topic_pattern group_id handler s c made h = ground arith

  -- A shutdown that returns leaves no consumer running of those that the service knows: if a
  -- subscription has returned, its own consumer is under the name of its pattern and group, and it
  -- and all others that the map then holds receive nothing any more.
  pub subscribe-on_module_destroy :
      (topic_pattern group_id : String) (handler : Json → Action (Unit {0}))
      (s : KafkaService k Json) (c : k.Consumer)
      → (k.consumer (consumer_config group_id) s.broker).0 ≡ ok c
      → (subscribe k topic_pattern group_id handler s).0 ≡ ok tt
      → (on_module_destroy k (subscribe k topic_pattern group_id handler s).1).0 ≡ ok tt
      → let s' = (subscribe k topic_pattern group_id handler s).1 in
        (consumer_of k (topic_pattern <+> "-" <+> group_id) s'.consumers ≡ some c)
        × Stopped k (on_module_destroy k s').1.broker s'.consumers
  subscribe-on_module_destroy topic_pattern group_id handler s c made h done = (
    rw (subscribe-registers topic_pattern group_id handler s c made h)
        (consumer_of-set_entry k (topic_pattern <+> "-" <+> group_id) c s.consumers),
    on_module_destroy-Stopped (subscribe k topic_pattern group_id handler s).1 done,
  )
