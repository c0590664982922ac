-- ===== src/Cmd.antt =====
-- The commands of cmd/mcptunnel and the helpers of internal/cli. The flag package's Parse of a command's
-- flags is a parameter: none where it fails, else the options and the arguments from the first positional on.
pub mod Flags
pub mod Expose
pub mod Token
pub mod Client
pub mod Choice
pub mod Cleanup
pub mod Managed
pub mod Registry
