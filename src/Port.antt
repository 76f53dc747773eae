-- ===== src/Port.antt =====
-- main.go: the arguments of `main` and `isValidPort`.
pub mod Laws
use net_cat.Base.{
  Bytes, codes, ℕ, ◌+◌, ◌-◌, ◌*◌, Bool, true, false, List, [], ◌∷◌, if◌then◌else◌, ltb, leb, length,
  ◌==◌,
}

-- The loop over the bytes, `port` being the number read so far.
unfoldable pub port_from : ℕ → Bytes → Bool
port_from port [] = leb 1 port
port_from port (b ∷ s) =
    let next = port * 10 + (b - b'0') in
    let rest = port_from next s in
    if ltb b b'0'
    then false
    else if ltb b'9' b
    then false
    else if ltb 65535 next
    then false
    else rest

unfoldable pub is_valid_port : Bytes → Bool
unfolding port_from
is_valid_port s = if length s == 0 then false else port_from 0 s

-- How `main` begins: the port it listens on, or the usage message and exit code 1, from
-- `os.Args`, the program's name included.
pub data Launch : Type 0 where
  listen : Bytes → Launch
  usage : Launch

unfoldable pub check_port : Bytes → Launch
check_port port = if is_valid_port port then listen port else usage

unfoldable pub launch : List Bytes → Launch
unfolding check_port
launch [] = check_port (codes "8989")
launch (program ∷ []) = check_port (codes "8989")
launch (program ∷ port ∷ []) = check_port port
launch (program ∷ port ∷ extra ∷ more) = usage
