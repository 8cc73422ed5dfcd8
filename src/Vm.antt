-- ===== src/Vm.antt =====
-- The virtual machine of include/odio/vm.hpp, include/odio/bytecode.hpp and src/odio/vm.cpp: the
-- values with their shared boxes, the operations on them, the bytecode, one instruction, and the
-- loops around it.
pub mod Boxes
pub mod Code
pub mod Words
pub mod Arithmetic
pub mod Members
pub mod State
pub mod Operations
pub mod Step
pub mod Handlers
pub mod Run
pub mod Innermost
pub mod Moves
pub mod Weight
pub mod Halting
pub mod Range
pub mod Division
pub mod Exact
mod Tests
pub mod Checker
pub mod Depth
pub mod Catching
pub mod Specialised
