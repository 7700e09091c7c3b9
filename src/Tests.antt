-- ===== src/Tests.antt =====
-- Small runs of the models of this tree, and their theorems at concrete inputs.
mod Samples
mod Buffers
mod Daemons
mod Stacks
mod Crashes
mod Wires
mod Runs
mod Starts
mod Texts
