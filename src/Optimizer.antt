-- ===== src/Optimizer.antt =====
-- compiler/optimize.cc: the optimizer.
pub mod Pass
pub mod Unreachable
pub mod Jumps
pub mod UselessCalls
pub mod Booleans
pub mod Labels
pub mod PushPop
pub mod SmallFunctions
pub mod Layout
pub mod Relocate
pub mod Driver
mod Tests
