-- ===== src/Tests.antt =====
-- Concrete inputs for the theorems of the other modules, and runs of the model that can be followed
-- in the C code.
mod Inputs
mod Messages
mod Contexts
mod Switchings
mod World
mod Sockets
mod Loops
mod Connections
mod Events
mod Systems
mod Programs
mod Prints
