-- ===== src/Tests.antt =====
-- A toy instance of the parameters, and the theorems at concrete inputs.
mod Toy
mod Packets
mod Spa
mod Handler
mod Webdash
mod Services
mod Clients
mod Commands
mod Agents
mod Traps
mod Networks
