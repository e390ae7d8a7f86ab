-- ===== src/Parsers.antt =====
-- Package parsers: the parsers of transaction data.
pub mod Errors
pub mod Tokens
pub mod CallArgs
pub mod DeployArgs
pub mod StorageUpdates
pub mod DctTransfers
