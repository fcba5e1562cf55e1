-- ===== src/Tests.antt =====
-- Concrete runs: a state with two variables, and every theorem with hypotheses applied there.
pub mod Program
pub mod Simple
pub mod Cache
pub mod Table
pub mod Choices
pub mod Numbers
