-- ===== src/Messages.antt =====
-- The messages of the name server, the host server and the session set-up, one module each.
mod Defaults
pub mod Tokens
pub mod ErrorInfo
pub mod Authentication
pub mod SessionInfo
pub mod AddressItem
pub mod AddressList
pub mod AddrBindStatus
pub mod AddrBindResults
pub mod ServerName
pub mod ExportableSvcAddress
pub mod HostRegisterReq
pub mod HostAddress
pub mod DomainRegisterReq
pub mod DomainAddress
pub mod HostRegisterAck
pub mod HostAddressList
pub mod ServiceInfo
pub mod ServiceTable
