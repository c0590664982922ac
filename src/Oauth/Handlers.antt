-- ===== src/Oauth/Handlers.antt =====
-- internal/oauth/register.go, internal/oauth/authorize.go and internal/oauth/token.go: the handlers of
-- a tenant's authorization server. What net/http, net/url, net and encoding/json make of a request is
-- in the request or in `Web`.
mod Answers
mod Register
mod Authorize
mod Token
pub use Answers.*
unfoldable pub use Register.*
unfoldable pub use Authorize.*
unfoldable pub use Token.*
