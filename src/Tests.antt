-- ===== src/Tests.antt =====
-- Concrete inputs of the components: the constants of k-core at sample values, accounts whose data
-- tries are functions, and the theorems at these.
pub mod Sample
pub mod World
mod Formats
mod Parse
mod Multi
mod Build
mod Accounts
mod Transfers
mod Keys
pub mod NftSample
mod Nfts
mod Tokens
mod Rights
mod Names
