-- ===== src/History.antt =====
-- pkg/monetdroid/history.go: what is read from the transcripts that the CLI keeps of its sessions.
pub mod Entry
pub mod Transcript
pub mod Load
pub mod Info
pub mod Links
pub mod Results
pub mod Usage
pub mod Cache
pub mod Reload
mod Tests
