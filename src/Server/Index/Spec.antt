-- ===== src/Server/Index/Spec.antt =====
-- What registering, leaving, moving and renaming do to the indexes, stated on the indexes alone.
use net_cat.Base.{
  Bytes, bytes_eq, bytes_eq_iff, ℕ, true, ◌&&◌, ◌≡◌, ◌≢◌, [], none, some, if◌then◌else◌, ◌==◌,
  ==_iff, arith,
}
use net_cat.Server.Index.{Index, IsConsistent}

-- A new client takes a name.
abbrev pub take_name : ℕ → Bytes → Index → Index
take_name c name x = record x {
  client_at = λ n. if bytes_eq name n then some c else x.client_at n;
  username_at = λ i. if c == i then name else x.username_at i;
}

-- The client loses its name and its place in its room.
abbrev pub drop_name : ℕ → Bytes → Index → Index
drop_name c name x = record x {
  client_at = λ n. if bytes_eq name n then none else x.client_at n;
  member_at = λ r n. if bytes_eq (x.room_at c) r && bytes_eq name n then none else x.member_at r n;
}

-- The client leaves its room for another.
abbrev pub move : ℕ → Bytes → Index → Index
move c room x = record x {
  member_at = λ r n.
      if bytes_eq (x.username_at c) n
      then (if bytes_eq room r
          then some c
          else if bytes_eq (x.room_at c) r
          then none
          else x.member_at r n)
      else x.member_at r n;
  room_at = λ i. if c == i then room else x.room_at i;
}

-- The client of the old name takes the new one, in its room too.
abbrev pub rename : ℕ → Bytes → Bytes → Index → Index
rename c old_name new_name x = record x {
  client_at = λ n.
      if bytes_eq new_name n then some c else if bytes_eq old_name n then none else x.client_at n;
  member_at = λ r n.
      if bytes_eq (x.room_at c) r
      then (if bytes_eq new_name n
          then x.member_at r old_name
          else if bytes_eq old_name n
          then none
          else x.member_at r n)
      else x.member_at r n;
  username_at = λ i. if c == i then new_name else x.username_at i;
}

module _ (x : Index) (v : IsConsistent x) where
  pub take_name-IsConsistent :
      (c : ℕ) (name : Bytes)
      → x.client_at name ≡ none
      → x.reserved_at name ≢ true
      → ((n : Bytes) → x.client_at n ≢ some c)
      → x.room_at c ≡ []
      → IsConsistent (take_name c name x)
  take_name-IsConsistent c name free open_name fresh nowhere = record {
    named = λ n i h. ground (arith, bytes_eq_iff name n, ==_iff c i, v.named n i, fresh n);
    member_named = λ r n i h. ground (arith, bytes_eq_iff name n, v.member_named r n i);
    member_placed = λ r n i h. v.member_placed r n i h;
    placed = λ n i h k. ground (arith, bytes_eq_iff name n, v.placed n i, v.named n i);
    outside = v.outside;
    unreserved = λ n i h. ground (arith, bytes_eq_iff name n, v.unreserved n i);
  }

  pub drop_name-IsConsistent :
      (c : ℕ) (name : Bytes) → x.client_at name ≡ some c → IsConsistent (drop_name c name x)
  drop_name-IsConsistent c name held = record {
    named = λ n i h. ground (arith, bytes_eq_iff name n, v.named n i);
    member_named = λ r n i h. ground (
      arith,
      bytes_eq_iff name n,
      bytes_eq_iff (x.room_at c) r,
      v.member_named r n i,
      v.member_placed r n i,
    );
    member_placed = λ r n i h. ground (arith, v.member_placed r n i);
    placed = λ n i h k. ground (arith, bytes_eq_iff name n, v.placed n i, v.named n i);
    outside = λ n. ground (arith, v.outside n);
    unreserved = λ n i h. ground (arith, v.unreserved n i);
  }

  pub move-IsConsistent :
      (c : ℕ) (room : Bytes)
      → room ≢ []
      → x.client_at (x.username_at c) ≡ some c
      → IsConsistent (move c room x)
  move-IsConsistent c room ne held = record {
    named = λ n i h. v.named n i h;
    member_named =
        λ r n i h. ground (arith, bytes_eq_iff (x.username_at c) n, v.member_named r n i);
    member_placed = λ r n i h. ground (
      arith,
      bytes_eq_iff (x.username_at c) n,
      bytes_eq_iff room r,
      bytes_eq_iff (x.room_at c) r,
      ==_iff c i,
      v.member_named r n i,
      v.member_placed r n i,
      v.named n i,
    );
    placed = λ n i h k. ground (
      arith,
      bytes_eq_iff (x.username_at c) n,
      bytes_eq_iff room room,
      bytes_eq_iff room (x.room_at i),
      bytes_eq_iff (x.room_at c) (x.room_at i),
      ==_iff c i,
      v.placed n i,
      v.named n i,
    );
    outside = λ n. ground (arith, v.outside n, bytes_eq_iff room []);
    unreserved = v.unreserved;
  }

  pub rename-IsConsistent :
      (c : ℕ) (old_name new_name : Bytes)
      → x.client_at old_name ≡ some c
      → x.client_at new_name ≡ none
      → x.reserved_at new_name ≢ true
      → IsConsistent (rename c old_name new_name x)
  rename-IsConsistent c old_name new_name held free open_name = record {
    named = λ n i h. ground (
      arith,
      bytes_eq_iff old_name n,
      bytes_eq_iff new_name n,
      ==_iff c i,
      v.named n i,
      v.named old_name c,
    );
    member_named = λ r n i h. ground (
      arith,
      bytes_eq_iff old_name n,
      bytes_eq_iff new_name n,
      bytes_eq_iff (x.room_at c) r,
      v.member_named r n i,
      v.member_named r old_name i,
      v.member_placed r n i,
    );
    member_placed = λ r n i h. ground (arith, v.member_placed r n i, v.member_placed r old_name i);
    placed = λ n i h k. ground (
      arith,
      bytes_eq_iff old_name n,
      bytes_eq_iff new_name n,
      bytes_eq_iff (x.room_at c) (x.room_at i),
      ==_iff c i,
      v.placed n i,
      v.named n i,
      v.placed old_name c,
    );
    outside = λ n. ground (arith, v.outside n, v.outside old_name);
    unreserved =
        λ n i h. ground (arith, bytes_eq_iff old_name n, bytes_eq_iff new_name n, v.unreserved n i);
  }
