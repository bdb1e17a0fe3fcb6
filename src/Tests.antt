-- ===== src/Tests.antt =====
-- Examples: each theorem with hypotheses at a concrete input.
mod Pool
mod Language
mod Tables
mod Sparse
mod Schemas
mod Forests
mod Operations
