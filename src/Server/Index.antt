-- ===== src/Server/Index.antt =====
-- The name indexes of the server, seen as functions: who has a name, who is in a room under a
-- name, and what each client says of itself.
pub mod Keep
pub mod Spec
pub mod Frame
pub mod Change
pub mod Rename
use net_cat.Base.{Bytes, ℕ, Bool, true, ◌≡◌, refl, Option, none, some, [], ◌≢◌}
use net_cat.Base.Assoc.{lookup}
use net_cat.Server.{Server, Room, is_set}

pub record Index : Type 0 where
  pub client_at : Bytes → Option ℕ
  pub member_at : Bytes → Bytes → Option ℕ
  pub username_at : ℕ → Bytes
  pub room_at : ℕ → Bytes
  pub reserved_at : Bytes → Bool

abbrev pub member_in : Option Room → Bytes → Option ℕ
member_in none n = none
member_in (some r) n = lookup n r.clients

unfoldable pub index : Server → Index
index s = record {
  client_at = λ n. lookup n s.clients;
  member_at = λ r. member_in (lookup r s.rooms);
  username_at = λ i. (s.heap i).username;
  room_at = λ i. (s.heap i).room;
  reserved_at = λ n. is_set n s.reserved_names;
}

-- The indexes agree with the clients: a name leads to the client that bears it, a member of a
-- room is the client of that name and says that it is there, a client that says that it is in a
-- room is a member of it, nobody is in the room with the empty name, and no reserved name is in
-- use.
pub record IsConsistent (x : Index) : Type 0 where
  pub named : (n : Bytes) (i : ℕ) → x.client_at n ≡ some i → x.username_at i ≡ n
  pub member_named : (r n : Bytes) (i : ℕ) → x.member_at r n ≡ some i → x.client_at n ≡ some i
  pub member_placed : (r n : Bytes) (i : ℕ) → x.member_at r n ≡ some i → x.room_at i ≡ r
  pub placed :
      (n : Bytes) (i : ℕ)
      → x.client_at n ≡ some i
      → x.room_at i ≢ []
      → x.member_at (x.room_at i) n ≡ some i
  pub outside : (n : Bytes) → x.member_at [] n ≡ none
  pub unreserved : (n : Bytes) (i : ℕ) → x.client_at n ≡ some i → x.reserved_at n ≢ true
