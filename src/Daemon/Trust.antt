-- ===== src/Daemon/Trust.antt =====
-- Whom the limits per address count a request for, behind Cloudflare.
use mcptunnels.Prelude.{Str, some, ◌≡◌, arith, trim_space}
use mcptunnels.ControlPlane.{Environment, remote_ip}
use mcptunnels.Store.{Api, Bcrypt}
use mcptunnels.Daemon.{Net, cloudflare_client_ip, client_ip}

-- Behind the Cloudflare middleware, a request whose CF-Connecting-IP is an IP address counts for that address, in the
-- limits of the control plane and of the authorization server alike, whatever the connection's address
-- and the X-Forwarded-For header are; SplitHostPort gives back the host that JoinHostPort was given.
pub client_ip-cloudflare_client_ip :
    {S : Type 0} (api : Api S) (bcrypt : Bcrypt) (env : Environment) (net : Net)
    (header remote fwd ip : Str)
    → env.split_host (net.join_host ip) ≡ some ip
    → net.split_host (net.join_host ip) ≡ some ip
    → net.parse_ip (trim_space header) ≡ some ip
    → (client_ip net fwd (cloudflare_client_ip net header remote) ≡ ip)
      × (remote_ip api bcrypt env (cloudflare_client_ip net header remote) ≡ ip)
unfolding client_ip cloudflare_client_ip
client_ip-cloudflare_client_ip api bcrypt env net header remote fwd ip a b p =
    (ground (arith, p, b), ground (arith, p, a))
