-- ===== src/Server/Rights.antt =====
-- Who may do what: the admin and mute flags, the known admins, the bans and the cooldowns.
pub mod Keep
pub mod Travel
pub mod Guard
pub mod Grants
pub mod Lines
pub mod NoGrants
pub mod Connections
use net_cat.Base.{Bytes, ℕ, Bool}
use net_cat.Base.Assoc.{Assoc}
use net_cat.Server.{Server}

pub record Rights : Type 0 where
  pub admin_at : ℕ → Bool
  pub muted_at : ℕ → Bool
  pub known : Assoc Bool
  pub banned : Assoc Bool
  pub cooling : Assoc ℕ

unfoldable pub rights : Server → Rights
rights s = record {
  admin_at = λ i. (s.heap i).admin;
  muted_at = λ i. (s.heap i).muted;
  known = s.admins;
  banned = s.banned_ips;
  cooling = s.kicked_ips;
}
