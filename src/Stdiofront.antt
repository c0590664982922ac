-- ===== src/Stdiofront.antt =====
-- internal/stdiofront/stdiofront.go: an MCP client on stdin and stdout, bridged to a remote endpoint.
pub mod Events
pub mod Framing
pub mod Requests
pub mod Recovery
pub mod Delivery
pub mod Answers
pub mod Stream
pub mod Serve
pub mod Interleaving
pub mod Sharing
pub mod Expiry
