-- ===== src/Tests.antt =====
-- Runs on concrete inputs, and the theorems at concrete inputs, for the modules beside this one.
mod Frames
mod Sessions
mod Wires
mod Probes
mod Texts
mod Plans
mod Images
mod Drivers
mod Handshakes
mod Commands
mod Chips
