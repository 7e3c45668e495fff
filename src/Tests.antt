-- ===== src/Tests.antt =====
-- Runs of the theorems at concrete inputs.
mod Frames
mod Streams
mod Connection
mod Sockets
mod Descriptors
mod Cases
mod Programs
mod Delivery
mod Closing
