-- ===== src/Tests.antt =====
-- Each property at a concrete input where its hypotheses hold.
mod Readers
mod Carriers
mod Lines
mod Writers
mod Devices
mod Chains
mod Hosts
mod Programs
mod Systems
mod Startups
mod Machines
