-- ===== src/Mtbdd.antt =====
-- crates/oxidd-rules-mtbdd: binary decision diagrams with numbers as terminals.
pub mod Integer
pub mod Int64
pub mod Number
pub mod Terminal
