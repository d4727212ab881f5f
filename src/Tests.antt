-- ===== src/Tests.antt =====
-- The witnesses of the theorems, at concrete inputs, and the instances that they run on.
mod World
mod Keys
mod Counters
mod Requests
mod System
mod Answers
mod Flushes
mod Threads
mod Wholes
mod Histories
mod Managers
