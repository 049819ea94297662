-- ===== src/Lib.antt =====
-- Orders, payments and the order-processing saga of a NestJS CQRS service.
--
-- The program takes orders over HTTP, stores them, charges them by a simulated payment, and confirms
-- or cancels them by a saga. Commands change one table each and announce events on the CQRS event
-- bus; the event handlers log them to the event store and to Kafka, and drive the saga; the saga
-- manager stores the saga's progress under a distributed lock in Redis, and compensates it.
--
-- Prelude: the shared names, JavaScript's truth of texts, lists. Outcome: exceptions and results.
-- Table: a table as the list of its rows, and `Repository`, what the code relies on of TypeORM.
-- Entity: src/*/entities, src/*/commands/*.commands.ts and src/*/events/*.events.ts.
-- Message, Kafka: src/kafka/kafka.service.ts (`selectTopic`, `generateTopicForProduct`, `publish`);
-- Kafka/Library, Kafka/Client: its connections (`onModuleInit`, `onModuleDestroy`, `subscribe`,
-- `createTopics`) over kafkajs as a parameter, and src/config/kafka.config.ts.
-- World: the state that the services share (tables, Redis keys, messages, bus events, callbacks of
-- `setImmediate`), the monad of method calls, and `Platform`, everything that is not this program's
-- code. A method returns or throws, and what it wrote before a throw stays written.
-- Lock: src/redis/redis-lock.service.ts. A Lua script is one step of Redis.
-- Store: the repository calls as actions.
-- Order: src/order/commands/handlers/order.handlers.ts (`execute_create`, `execute_cancel`,
-- `execute_confirm` are the `execute` methods); Order/Interleaved cuts each of them in two at the await
-- of its `findOne` (`read`, `finish`), lets the parts of any number of calls run in any order, and
-- Order/Races has what two calls at once do to each other. Payment: src/payment/commands/handlers/
-- payment.handlers.ts (`execute_process`, `settle` for the deferred simulation, `execute_refund`).
-- Saga: src/saga/saga-manager.service.ts. Processing: src/saga/order-processing.saga.ts.
-- Handlers: src/order/events/handlers/order.handlers.ts, src/payment/events/handlers/
-- payment.handlers.ts and the two handler classes of order-processing.saga.ts.
-- Maintenance: src/saga/saga-maintenance.controller.ts (`cleanupPendingOrders`, and in
-- Maintenance/Health the two reports).
-- Auth: src/auth/auth.service.ts and src/auth/strategies; Auth/Endpoints: src/auth/auth.controller.ts.
-- bcrypt, the signing of tokens and the configuration are the record `Credentials`; bcrypt compares
-- the part of a text that it reads.
-- OrderController: src/order/order.controller.ts and src/order/queries/handlers/order.handlers.ts;
-- its child Texts is JavaScript's `sort()` of texts. Pages: how the queries page through rows.
-- SagaController: src/saga/saga.controller.ts and the queries of the saga services.
-- App: src/app.controller.ts and src/app.service.ts. Tracing: src/tracing/tracing.controller.ts. LockTest: src/redis/redis-test.controller.ts.
-- System: the running service. A step is a command of a request, the clean-up, a callback that was
-- deferred, or the delivery of an event, each taken in any order; a run is a sequence of steps. The
-- event bus of @nestjs/cqrs calls the registered handlers of an event, and an exception in one stops
-- no other. A `Trail` lists what the parts have to respect for a relation to hold along every run;
-- System/Orders, System/Log, System/Payments, System/Charges and System/Bills fill it for the orders,
-- the event store, the payments with the callbacks that wait to end them, the number of announcements
-- and payments of each order, and what these tell and charge; System/Settlement builds a run.
-- Examples: services in memory that meet every assumption, and the theorems at concrete inputs.
--
-- TypeORM, Redis, Kafka, hashing, identifiers and time are parameters, with the documented
-- behaviour that the proofs use as laws. Writes and publications may throw; a read of the database
-- answers. A method runs as one step between the other clients' actions, which enter at the waits
-- of the lock (`elapse`), everywhere but in Order/Interleaved, so that theorems on runs of System
-- say nothing of two methods at once. The order of rows of one `createdAt` may differ from page to
-- page. No fuel is used: the only loop that is not over a list is that of `acquireLock`, by the
-- retries that are left. Prices and amounts are whole minor units, without the rounding of
-- floating-point numbers. A page and a limit are not negative; a page 0 makes a negative OFFSET,
-- which the database refuses, and what a limit of 0 takes is left open, so theorems on pages ask
-- for a limit that is not 0. Columns that only the database fills are left out, but for the dates
-- of a saga from which the tracing computes durations. Guards and the validation of requests are
-- library calls: the account that a guard puts into a request is an argument.
--
-- Not modelled: logging, module wiring and the configuration of the framework and of the database
-- (src/main.ts, src/*/*.module.ts, src/config/database.config.ts, src/config/jwt.config.ts).
pub mod Prelude
pub mod Outcome
pub mod Table
pub mod Entity
pub mod Message
pub mod World
pub mod Kafka
pub mod Lock
pub mod LockTest
pub mod Store
pub mod Pages
pub mod Order
pub mod Payment
pub mod Saga
pub mod Processing
pub mod Auth
pub mod OrderController
pub mod SagaController
pub mod Handlers
pub mod App
pub mod Maintenance
pub mod Tracing
pub mod System
pub mod Examples
