-- ===== src/Db.antt =====
-- The tables of schema/ that the entitlement code reads and writes, transactions over them, and the
-- operations of backend.py on users and generations.
pub mod Tables
pub mod Monad
pub mod Users
pub mod Generations
pub mod Account
