-- ===== src/Feeds.antt =====
-- The learning loop on the reliability of data feeds: the latency detector of
-- research_loop/feed_latency_monitor.py, the incident and latency tables of persistence/db.py, and the
-- rules of research_loop/feed_reliability.py.
pub mod Detector
pub mod Latency
pub mod Incidents
pub mod Reliability
mod Tests
