-- ===== src/Yao/Simulation.antt =====
-- The simulation of a plain run of the virtual machine by the garbler's and the evaluator's.
pub mod Lists
pub mod Relation
pub mod Rules
pub mod Registers
pub mod Integers
pub mod Wires
pub mod Gates
pub mod AndGate
pub mod Shift
pub mod Secrets
pub mod Counts
pub mod Instructions
pub mod Execute
pub mod Programs
