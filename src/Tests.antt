-- ===== src/Tests.antt =====
-- Runs of the operations on small inputs, and the theorems applied to them.
mod Buffers
mod Pools
mod Streams
mod Queues
mod Servers
mod Tasks
mod Crew
mod Accepts
mod Loops
mod Stops
mod Stacks
mod Instances
