-- ===== src/Tests.antt =====
-- Test data and runs at concrete inputs.
mod Trees
mod Plain
mod Lists
mod Tables
mod Texts
mod Pools
mod Messages
mod Requests
mod Exchanges
mod Brokers
mod Queues
mod Clones
mod Processes
mod Servers
