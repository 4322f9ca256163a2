-- ===== src/Tests.antt =====
-- Runs on concrete inputs, and the theorems at concrete inputs.
mod StorageRuns
mod MessageRuns
mod GroupRuns
mod GroupStorageRuns
mod RouteRuns
mod SyncRuns
mod RouteServerRuns
mod ChannelRuns
mod DeliverRuns
mod RebuildRuns
mod PublishRuns
