-- ===== src/Tests.antt =====
-- Runs of the theorems on concrete inputs.
mod Subscriptions
mod Wire
mod Servers
mod Workers
mod Queues
mod Registry
mod Services
mod Security
