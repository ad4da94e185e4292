-- ===== src/Kalay/Examples.antt =====
-- Runs of the transport on concrete inputs, at which its theorems apply.
mod Wire
mod Streams
mod Sender
mod Opens
mod Packets
mod Addresses
mod Pumping
mod Handshake
