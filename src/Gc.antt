-- ===== src/Gc.antt =====
-- GC/: the virtual machine that runs a boolean program over secret wires. It is generic in the
-- wires, as GC::Secret<T> and GC::Processor<T> are in their template parameter.
pub mod Phase
pub mod Plain
pub mod Processor
pub mod Secret
pub mod Instruction
pub mod Machine
pub mod Program
