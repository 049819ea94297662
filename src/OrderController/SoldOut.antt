-- ===== src/OrderController/SoldOut.antt =====
-- Products that are sold out, over whole runs of the service: the keys of
-- src/order/order.controller.ts and the orders that src/order/commands/handlers/order.handlers.ts stores.
use nestjs_cqrs_saga.Entity.{Order}
use nestjs_cqrs_saga.World.{World}
