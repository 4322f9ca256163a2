-- ===== src/Message.antt =====
-- The messages of the wire protocol.
pub mod Text
pub mod TextLaws
pub mod Fixed
pub mod FixedLaws
pub mod Auth
pub mod AuthLaws
pub mod Offline
pub mod OfflineLaws
pub mod Pending
pub mod PendingLaws
pub mod Body
pub mod Creators
pub mod Frame
pub mod Fits
pub mod BodyLaws
pub mod FrameLaws
pub mod Total
pub mod Avoids
pub mod Panics
pub mod Append
