-- ===== src/KillSwitch.antt =====
-- The kill switch of the paper-live loop: its reader, v2/runtime/kill_switch.py, and the operator's
-- commands, v2/runtime/killctl.py.
pub mod Reader
pub mod Control
pub mod Reading
pub mod Entries
pub mod Commands
pub mod Clearing
mod Tests
