-- ===== src/Tests.antt =====
-- Runs of the theorems on small packets, caches, routers and rotations.
mod Data
mod Packets
mod Frames
mod Caches
mod Routers
mod Rotations
mod Names
mod Hosts
mod Boards
mod Radios
mod Talks
mod Letters
