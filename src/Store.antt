-- ===== src/Store.antt =====
-- internal/store: the statements of each table. `WithTx` binds a store to a transaction; in the
-- model a statement is run on whatever world it is given, so a store is no value of its own.
pub mod Jobs
pub mod DeadLetters
pub mod Files
pub mod Versions
pub mod Features
pub mod Prompts
pub mod Graph
pub mod Styles
pub mod Projects
pub mod Entities
pub mod Endpoints
pub mod Configs
