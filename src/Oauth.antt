-- ===== src/Oauth.antt =====
-- internal/oauth: the authorization server of each tenant.
pub mod Jwt
pub mod Rate
pub mod Server
pub mod Handlers
pub mod Tokens
pub mod Exchange
pub mod Flow
pub mod Redeem
pub mod Registration
pub mod WellKnown
pub mod Form
