-- ===== src/Plugins.antt =====
-- src/plugins: what is read off an operation's object, and the plugins, one in a module of its own.
pub mod Utils
pub mod Arrays
pub mod Balance
pub mod Transfer
pub mod Account
pub mod AssetChange
pub mod TokenCreate
pub mod TokenInvoke
pub mod TokenEvents
pub mod TokenKeeps
pub mod EventKeeps
pub mod EventStores
pub mod EventKeys
pub mod EventErrors
pub mod Deposits
pub mod BalanceRows
pub mod BalanceStored
pub mod TokenStored
pub mod Keeps
pub mod Keys
