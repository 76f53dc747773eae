-- ===== src/Server/Moderation/Laws.antt =====
-- How long an address stays blocked.
use net_cat.Base.{
  Bytes, bytes_eq_refl, bytes_eq_iff, codes, ltb, ◌+◌, ◌≡◌, true, false, some, if◌then◌else◌, arith,
}
use net_cat.Base.Assoc.{lookup-insert, lookup-delete}
use net_cat.Server.{Server, Now, is_set}
use net_cat.Server.Names.{extract_host}
use net_cat.Server.Clients.{has}
use net_cat.Server.Moderation.{kick_cooldown, add_kick_cooldown, add_ban_ip, is_ip_blocked}

-- After a kick the host is blocked for five minutes to the nanosecond, whatever its port, unless
-- it is banned, and then it is blocked at any time.
pub add_kick_cooldown-is_ip_blocked :
    (now later : Now) (ip ip' : Bytes) (s : Server)
    → extract_host ip ≡ extract_host ip'
    → has (is_ip_blocked later ip' (add_kick_cooldown now ip s)).0 ≡ (
        if is_set (extract_host ip) s.banned_ips
        then true
        else ltb later.instant (now.instant + 300_000_000_000))
unfolding add_kick_cooldown is_ip_blocked
add_kick_cooldown-is_ip_blocked now later ip ip' s h = ground (
  arith,
  lookup-insert (extract_host ip) (extract_host ip') (now.instant + kick_cooldown) s.kicked_ips,
  bytes_eq_refl (extract_host ip'),
)

-- After a ban every address of the host is blocked, at any time, and the check changes nothing.
pub add_ban_ip-is_ip_blocked :
    (now : Now) (ip ip' : Bytes) (s : Server)
    → extract_host ip ≡ extract_host ip'
    → is_ip_blocked now ip' (add_ban_ip ip s)
      ≡ (some (codes "You are banned from this server.\n"), add_ban_ip ip s)
unfolding add_ban_ip is_ip_blocked
add_ban_ip-is_ip_blocked now ip ip' s h = ground (
  arith,
  lookup-insert (extract_host ip) (extract_host ip') true s.banned_ips,
  bytes_eq_refl (extract_host ip'),
)

-- The check does not change what later checks of any host say, at that time or after it.
pub is_ip_blocked-twice :
    (now later : Now) (ip ip' : Bytes) (s : Server)
    → ltb later.instant now.instant ≡ false
    → (is_ip_blocked later ip' (is_ip_blocked now ip s).1).0 ≡ (is_ip_blocked later ip' s).0
unfolding is_ip_blocked
is_ip_blocked-twice now later ip ip' s h = ground (
  arith,
  lookup-delete (extract_host ip) (extract_host ip') s.kicked_ips,
  bytes_eq_iff (extract_host ip) (extract_host ip'),
)
