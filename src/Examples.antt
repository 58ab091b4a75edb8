-- ===== src/Examples.antt =====
-- Runs of the modelled code on concrete inputs, and each theorem at an input where it applies.
mod Numbers
mod Buffers
mod Frames
mod Addresses
mod Sessions
mod Flows
mod Links
mod Routes
mod Texts
mod Proxies
mod Pools
mod Configs
