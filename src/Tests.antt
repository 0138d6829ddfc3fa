-- ===== src/Tests.antt =====
-- Runs of the model on concrete inputs, and the theorems at inputs that meet their hypotheses.
mod Messages
mod Workers
mod Sockets
mod Channels
mod Loops
mod Services
mod Https
mod Streams
mod Clients
mod Rounds
mod Proxies
mod Contexts
mod Logs
