-- ===== src/Server/Index/Rename.antt =====
-- `RenameClient` of server/clients.go, against `Spec`.
use net_cat.Base.{
  Bytes, bytes_eq, bytes_eq_iff, ℕ, true, false, ◌≡◌, ◌≢◌, refl, sym, ◌∙◌, ap, subst, [], none,
  some, inl, inr, if◌then◌else◌, ==_iff, arith, Bool-cases, Option-cases,
}
use net_cat.Base.Assoc.{lookup, insert, delete, lookup-insert, lookup-delete}
use net_cat.Server.{Server, Room, on_client, is_set}
use net_cat.Server.Rooms.{put_room}
use net_cat.Server.Clients.{swap_name, set_name, rename_client, rename_member, has}
use net_cat.Server.Index.{Index, index, member_in, IsConsistent}
use net_cat.Server.Index.Frame.{SameRooms, swap_name-frame}
use net_cat.Base.Heap.{update}
use net_cat.Server.Index.Spec.{rename}
use net_cat.Server.Index.Change.{same_index, is_free}

-- The entry of one room goes over to the new name.
relisted : Bytes → Bytes → Bytes → Index → Index
relisted room old_name new_name x = record x {
  member_at = λ r n.
      if bytes_eq room r
      then (if bytes_eq new_name n
          then x.member_at r old_name
          else if bytes_eq old_name n
          then none
          else x.member_at r n)
      else x.member_at r n;
}

relist_absent :
    (c : ℕ) (old_name new_name : Bytes) (s : Server)
    → ((n : Bytes) → member_in (lookup (s.heap c).room s.rooms) n ≡ none)
    → index s ≡ relisted (s.heap c).room old_name new_name (index s)
unfolding relisted index
relist_absent c old_name new_name s h =
    same_index _ _ (λ n. refl)
      (λ k n. ground (arith, bytes_eq_iff (s.heap c).room k, h n, h old_name)) (λ i. refl)
      (λ i. refl) (λ n. refl)

module _ (c : ℕ) (old_name new_name : Bytes) (s : Server)
    (outside : (n : Bytes) → member_in (lookup [] s.rooms) n ≡ none)
    (placed : (s.heap c).room ≢ []
      → member_in (lookup (s.heap c).room s.rooms) old_name ≡ some c) where
  nobody :
      (n : Bytes)
      → bytes_eq (s.heap c).room [] ≡ true
      → member_in (lookup (s.heap c).room s.rooms) n ≡ none
  nobody n e =
      subst (λ r. member_in (lookup r s.rooms) n ≡ none)
        (sym ((bytes_eq_iff (s.heap c).room []).0 e)) (outside n)

  relist_room :
      (r : Room)
      → bytes_eq (s.heap c).room [] ≡ false
      → lookup (s.heap c).room s.rooms ≡ some r
      → index (
          put_room
            (s.heap c).room
            (record r { clients = insert new_name c (delete old_name r.clients) })
            s)
        ≡ relisted (s.heap c).room old_name new_name (index s)
  unfolding relisted put_room index
  relist_room r e g =
      same_index _ _ (λ n. refl)
        (λ k n. ground (
          arith,
          lookup-insert (s.heap c).room k
              (record r { clients = insert new_name c (delete old_name r.clients) }) s.rooms,
          lookup-insert new_name n c (delete old_name r.clients),
          lookup-delete old_name n r.clients,
          bytes_eq_iff (s.heap c).room k,
          bytes_eq_iff (s.heap c).room [],
          placed,
        ))
        (λ i. refl) (λ i. refl) (λ n. refl)

  rename_member-relisted :
      index (rename_member c old_name new_name s)
      ≡ relisted (s.heap c).room old_name new_name (index s)
  unfolding rename_member index
  rename_member-relisted = elim (Bool-cases (bytes_eq (s.heap c).room [])) [
    | inl e ↦ rw (e, rename_member) (relist_absent c old_name new_name s (λ n. nobody n e))
    | inr e ↦ elim (Option-cases (lookup (s.heap c).room s.rooms)) [
      | inl g ↦ rw (e, g, rename_member) (relist_absent c old_name new_name s (λ n. rw g refl))
      | inr (r, g) ↦ rw (e, g, rename_member) (relist_room r e g)
    ]
  ]

set_name_room :
    (c : ℕ) (old_name new_name : Bytes) (s : Server) (i : ℕ)
    → ((set_name c old_name new_name s).heap i).room ≡ (s.heap i).room
unfolding set_name on_client
set_name_room c old_name new_name s i = ground (arith, ==_iff c i)

relisted-set_name :
    (c : ℕ) (old_name new_name : Bytes) (s : Server)
    → relisted (s.heap c).room old_name new_name (index (set_name c old_name new_name s))
      ≡ rename c old_name new_name (index s)
unfolding relisted set_name on_client index
relisted-set_name c old_name new_name s =
    same_index _ _
      (λ n. ground (
        arith,
        lookup-insert new_name n c (delete old_name s.clients),
        lookup-delete old_name n s.clients,
      ))
      (λ k n. refl) (λ i. ground arith) (λ i. ground (arith, ==_iff c i)) (λ n. refl)

swap_name-rename :
    (c : ℕ) (old_name new_name : Bytes) (s : Server)
    → IsConsistent (index s)
    → lookup old_name s.clients ≡ some c
    → index (swap_name c old_name new_name s) ≡ rename c old_name new_name (index s)
unfolding swap_name index
swap_name-rename c old_name new_name s v held =
    rename_member-relisted c old_name new_name (set_name c old_name new_name s)
      (unfold set_name on_client in v.outside)
      (subst
        (λ r.
          r ≢ [] → member_in (lookup r (set_name c old_name new_name s).rooms) old_name ≡ some c)
        (sym (set_name_room c old_name new_name s c))
        (unfold set_name on_client in v.placed old_name c held))
    ∙ ap (λ (r : Bytes). relisted r old_name new_name (index (set_name c old_name new_name s)))
        (set_name_room c old_name new_name s c)
    ∙ relisted-set_name c old_name new_name s

pub rename_client-swap :
    (c : ℕ) (old_name new_name : Bytes) (s t : Server)
    → rename_client c old_name new_name s ≡ some t
    → (has (lookup new_name s.clients) ≡ false)
      × (is_set new_name s.reserved_names ≡ false)
      × (t ≡ swap_name c old_name new_name s)
unfolding rename_client
rename_client-swap c old_name new_name s t h = ground arith

-- On consistent indexes a rename of the client that bears the old name succeeds only for a name
-- that is neither in use nor reserved, and then the client goes over to it in the global index, in
-- its room and in its own record. Nothing else changes: no other field of the server or of any
-- client, and of the rooms no more than their members.
pub rename_client-rename :
    (c : ℕ) (old_name new_name : Bytes) (s t : Server)
    → IsConsistent (index s)
    → lookup old_name s.clients ≡ some c
    → rename_client c old_name new_name s ≡ some t
    → (lookup new_name s.clients ≡ none)
      × (is_set new_name s.reserved_names ≡ false)
      × (index t ≡ rename c old_name new_name (index s))
      × (t ≡ record s {
        clients = insert new_name c (delete old_name s.clients);
        rooms = t.rooms;
        heap = update s.heap c (record (s.heap c) { username = new_name });
      })
      × SameRooms t s
unfolding index
rename_client-rename c old_name new_name s t v held h =
    let (free, open_name, e) = rename_client-swap c old_name new_name s t h in
    let (rest, rooms) = swap_name-frame c old_name new_name s in
    (
      is_free _ free,
      open_name,
      ap index e ∙ swap_name-rename c old_name new_name s v held,
      rw e rest,
      λ k. rw e (rooms k),
    )
