-- ===== src/Process.antt =====
-- photo_processing.go and photo_recovery.go: the lock of a photo, and what is done behind it.
pub mod Lock
pub mod Mutex
pub mod Photo
pub mod Publish
pub mod Stages
pub mod Obsolete
pub mod Usable
pub mod Removal
mod Tests
