-- ===== src/Server/Moderation.antt =====
-- server/moderation.go.
pub mod Laws
use net_cat.Base.{
  Bytes, codes, ltb, ℕ, ◌+◌, ◌*◌, ◌^◌, Bool, true, false, Option, none, some, if◌then◌else◌,
}
use net_cat.Base.Assoc.{lookup, insert, delete}
use net_cat.Server.{Server, Now, is_set}
use net_cat.Server.Names.{extract_host}

-- Five minutes, in nanoseconds.
abbrev pub kick_cooldown : ℕ
kick_cooldown = 5 * 60 * 1_000_000_000

unfoldable pub add_kick_cooldown : Now → Bytes → Server → Server
add_kick_cooldown now ip s = record s {
  kicked_ips = insert (extract_host ip) (now.instant + kick_cooldown) s.kicked_ips;
}

unfoldable pub add_ban_ip : Bytes → Server → Server
add_ban_ip ip s = record s { banned_ips = insert (extract_host ip) true s.banned_ips }

-- The reason where the address is blocked, and the server, from which a cooldown that has run
-- out is taken.
unfoldable pub is_ip_blocked : Now → Bytes → Server → Option Bytes × Server
is_ip_blocked now ip s =
    if is_set (extract_host ip) s.banned_ips
    then (some (codes "You are banned from this server.\n"), s)
    else elim (lookup (extract_host ip) s.kicked_ips) [
      | none ↦ (none, s)
      | some expiry ↦
          if ltb now.instant expiry
          then (some (codes "You are temporarily blocked. Try again later.\n"), s)
          else (none, record s { kicked_ips = delete (extract_host ip) s.kicked_ips })
    ]
