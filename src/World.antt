-- ===== src/World.antt =====
-- The state that the services share, the monad of their methods, and the platform: what the code
-- uses of TypeORM, Redis, Kafka and hashing. Every field of `Platform` is a parameter.
mod State
mod External
mod Monad
mod Service
mod Invariant
pub use State.*
pub use External.*
pub use Monad.*
pub use Service.*
pub use Invariant.*
