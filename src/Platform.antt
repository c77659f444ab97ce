-- ===== src/Platform.antt =====
-- The client side of the SDK: platform/.
pub mod Errors
pub mod Stream
pub mod Header
pub mod Client
pub mod ParamsCache
pub mod Params
pub mod Filter
pub mod UrlTemplate
pub mod Call
pub mod Data
pub mod Batch
pub mod References
