-- ===== src/BuiltIn.antt =====
-- Package builtInFunctions: the functions of the protocol that act on accounts.
pub mod Errors
pub mod Host
pub mod Epochs
pub mod Calls
pub mod Metadata
pub mod Roles
pub mod GlobalSettings
pub mod Balance
pub mod Payable
pub mod Transfer
pub mod LocalAction
pub mod KeyValue
pub mod Burn
pub mod WipeId
pub mod TokenStorage
pub mod NftCalls
pub mod NftSupply
pub mod NftCreate
pub mod NftUpdate
pub mod NftTransfer
pub mod MultiTransfer
pub mod FreezeWipe
pub mod TransferRole
pub mod CreateRoleTransfer
