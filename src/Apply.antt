-- ===== src/Apply.antt =====
-- pkg/apply: the set of objects to apply, the labels that find them again, and the comparison of
-- what is wanted with what is there.
pub mod Sort
pub mod ObjectSet
pub mod Labels
pub mod Compare
pub mod Owner
pub mod Client
pub mod Namespaces
pub mod Process
pub mod Desired
pub mod Patch
pub mod Diff
mod Tests
