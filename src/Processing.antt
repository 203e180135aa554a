-- ===== src/Processing.antt =====
-- services/processing-service/app: the rows that an event becomes, the tables they are written to,
-- the event handler and the consumer loop.
pub mod Rows
pub mod Tables
pub mod Actions
pub mod Repository
pub mod Handler
pub mod Worker
pub mod Ensures
pub mod Totals
pub mod Keeps
pub mod Accounting
pub mod Delivery
pub mod Conservation
pub mod Commits
mod Tests
