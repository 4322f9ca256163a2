-- ===== src/Storage.antt =====
-- The message storage of ServerIMS.
pub mod File
pub mod FileLaws
pub mod SaveLaws
pub mod Peer
pub mod PeerLoad
pub mod Queue
pub mod PeerLaws
pub mod PeerLoadLaws
pub mod ExecLaws
pub mod Group
pub mod GroupQueue
pub mod GroupLaws
pub mod Sync
pub mod SyncLaws
pub mod SyncRunLaws
pub mod SyncPeerLaws
pub mod Rebuild
pub mod LogLaws
pub mod LogSaveLaws
pub mod RebuildLaws
pub mod RebuildSaveLaws
pub mod RebuildRunLaws
pub mod GroupLoadLaws
