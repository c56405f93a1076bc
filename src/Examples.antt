-- ===== src/Examples.antt =====
-- Concrete inputs: a small box, a chain of servers, and the theorems at such inputs.
mod Toy
mod Parts
mod Layers
mod Exchanges
mod Rounds
mod Mixing
mod Paired
mod Calling
mod Chat
mod Talking
mod Dialing
mod Serving
mod Loops
mod Starting
