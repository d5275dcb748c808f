-- ===== src/Tests.antt =====
-- Tests of the model, and each theorem at an input that meets its hypotheses.
mod Buffers
mod Managers
mod Masters
mod Reconnects
mod Proxies
mod Readers
mod Bridges
mod Logs
mod Scripts
mod Settings
mod Setups
mod Toolbox
mod Upgrades
mod Versions
mod Webs
