-- ===== src/Examples.antt =====
-- examples/: the scripts that say something about the library, without their printing.
pub mod Arrays
pub mod Executor
pub mod Benchmark
pub mod Arm
