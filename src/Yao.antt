-- ===== src/Yao.antt =====
-- Yao/: the garbled gate, the garbler's and the evaluator's wires, and the state of the two parties.
pub mod Gate
pub mod Primitives
pub mod GarbleWire
pub mod EvalWire
pub mod Agreement
pub mod Phases
pub mod Ands
pub mod Protocol
pub mod Simulation
pub mod Correct
pub mod Outputs
pub mod Steps
