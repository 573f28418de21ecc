-- ===== src/Attachment.antt =====
-- internal/attachment: the blobs that an agent uploads in chunks and a peer downloads in ranges.
pub mod Service
pub mod Abstract
pub mod Invariant
pub mod Outcomes
pub mod Operations
pub mod Signature
pub mod ByteRange
pub mod Ranges
pub mod Receiver
pub mod Upload
