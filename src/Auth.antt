-- ===== src/Auth.antt =====
-- Auth/: partial opening of shared values, by a tree of players, and the check of their MACs.
pub mod TreeSum
pub mod Passing
pub mod Direct
pub mod MacCheck
pub mod TreeOpens
pub mod Seeds
