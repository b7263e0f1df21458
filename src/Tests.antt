-- ===== src/Tests.antt =====
-- Tests at fixed inputs, and the properties at inputs that meet their hypotheses.
mod Worlds
mod Target
mod Filter
mod Workers
mod Pipeline
mod Numbers
mod System
mod Walk
mod License
mod Disks
mod Sizes
mod Store
mod Linux
mod CommandLine
