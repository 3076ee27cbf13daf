-- ===== src/Codecs.antt =====
-- packages/rsocket-core/src/Codecs.ts: frames to bytes and back.
pub mod Common
pub mod Serialize
pub mod Size
pub mod Deserialize
pub mod Wire
pub mod Layout
pub mod ReadBack
pub mod RoundTrip
pub mod Stream
mod Tests
