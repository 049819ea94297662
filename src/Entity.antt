-- ===== src/Entity.antt =====
-- The entities, commands and domain events: src/{order,payment,saga,user,event-store}/entities,
-- src/{order,payment}/commands and src/{order,payment}/events.
mod Orders
mod Payments
mod Sagas
mod Events
mod Users
pub use Orders.*
pub use Payments.*
pub use Sagas.*
pub use Events.*
pub use Users.*
