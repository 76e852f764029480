-- ===== src/Txn.antt =====
-- The transaction manager (src/transaction.c, include/transaction.h): the undo log of the one open
-- transaction, its savepoints, and both rollbacks. The names of the first four modules are passed on.
pub mod State
pub mod Rollback
pub mod Savepoints
pub mod Log
pub mod Inv
pub mod Undo
pub mod Partial
pub mod OnStore
mod Tests
unfoldable pub use State.*
unfoldable pub use Rollback.*
unfoldable pub use Savepoints.*
unfoldable pub use Log.*
