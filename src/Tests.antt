-- ===== src/Tests.antt =====
-- Runs of the model on concrete data, and the theorems applied to them.
mod Packets
mod Streams
mod Tunnels
mod Machines
mod Supports
mod Proxies
mod Listeners
mod Sessions
