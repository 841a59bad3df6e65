-- ===== src/App/Members/Reaching.antt =====
-- app_room_e2ee.go: what the owner's removal does at a member that it reaches.
use bencchat.App.Members.Authority.{
  mark_chain_stale, signed_roster, distribute_roster, normalized, outside, entitled, rekey_room,
  Room, installed, obey, room_roster, apply_roster, dropped, stated, newly_removed, remove_all,
}
use bencchat.App.Members.History.{rekeyed}
use bencchat.Prelude.{
  inr, inl, Bool-cases, ℕ, true, false, ◌||◌, ◌&&◌, not, List, [], ◌∷◌, ◌++◌, ◌≡◌, refl, arith,
  Option, All, length, ◌==◌,
}
use bencchat.Prelude.Bytes.{Bytes, bytes_eq, bytes_eq_iff}
use bencchat.State.ScreenName.{has_name, delete_name}
use bencchat.E2ee.Roster.{Roster}
use bencchat.App.Members.{
  Members, norm, is_empty, was_removed, set_all, accept_owner_epoch, ahead_of_owner, tombstone,
  with_names, remove, removed_list, next_epoch,
}
use bencchat.App.Members.Apart.{dropped_owner, dropped-names}
use bencchat.App.Members.Sets.{
  names-of_element, names-sort_strings, names, has_name-without_names, has_name-with_names,
  has_name-others,
}

module _ (to_lower : Bytes → Bytes) where
  -- Names as they are kept: normalizing changes nothing.
  abbrev pub IsNormal : Bytes → Type 0
  IsNormal n = norm to_lower n ≡ n

  names-append :
      (k : Bytes) (ms ns : List Bytes)
      → names to_lower k (ms ++ ns) ≡ (names to_lower k ms || names to_lower k ns)
  unfolding names
  names-append k [] ns = refl
  names-append k (m ∷ ms) ns = ground (arith, names-append k ms ns)

  -- Over normal names, to be named is to be an element.
  names-normal :
      (k : Bytes) (ns : List Bytes) → All IsNormal ns → names to_lower k ns ≡ has_name k ns
  unfolding names has_name
  names-normal k [] normal = refl
  names-normal k (n ∷ ns) normal = ground (arith, names-normal k ns normal.1, normal.0)

  delete_name-IsNormal :
      (k : Bytes) (ns : List Bytes) → All IsNormal ns → All IsNormal (delete_name k ns)
  unfolding delete_name
  delete_name-IsNormal k [] normal = tt
  delete_name-IsNormal k (n ∷ ns) normal = elim (Bool-cases (bytes_eq n k)) [
    | inl same ↦ rw (delete_name, same) (delete_name-IsNormal k ns normal.1)
    | inr other ↦ rw (delete_name, other) (normal.0, delete_name-IsNormal k ns normal.1)
  ]

  remove_all-IsNormal :
      (ds : List Bytes) (m : Members)
      → All IsNormal m.invited
      → All IsNormal (remove_all to_lower ds m).invited
  unfolding remove_all remove
  remove_all-IsNormal [] m normal = normal
  remove_all-IsNormal (d ∷ ds) m normal =
      remove_all-IsNormal ds (remove to_lower d m)
        (delete_name-IsNormal (norm to_lower d) m.invited normal)

  -- Some removal is news to a peer.
  newly_removed-news :
      (k : Bytes) (ns : List Bytes) (m : Members)
      → names to_lower k ns ≡ true
      → has_name k m.removed ≡ false
      → (length (newly_removed to_lower ns m) == 0) ≡ false
  unfolding names newly_removed was_removed
  newly_removed-news k [] m named new = absurd (ground (arith, named))
  newly_removed-news k (n ∷ ns) m named new =
      ground (arith, newly_removed-news k ns m, bytes_eq_iff (norm to_lower n) k)

  -- A roster of the owner that is news, at a peer who pinned that owner.
  heard :
      (self : Bytes) (r : Roster) (peer : Room) (k : Bytes)
      → entitled to_lower self r peer.members ≡ true
      → bytes_eq (norm to_lower r.author) peer.members.owner ≡ true
      → ahead_of_owner r.epoch peer.members ≡ true
      → names to_lower k r.removed ≡ true
      → names to_lower k r.members ≡ false
      → let after = apply_roster to_lower self r peer in
        (has_name k after.members.removed ≡ true)
        × (has_name k after.members.invited ≡ false)
        × (has_name k peer.members.removed ≡ false → after.stale ≡ true)
        × ((j : Bytes)
            → has_name j after.members.invited
              ≡ (names to_lower j r.members && not (bytes_eq j self)))
  unfolding apply_roster obey installed tombstone set_all accept_owner_epoch has_name
  heard self r peer k may author ahead gone absent = (
    ground (
      arith,
      has_name-without_names to_lower k r.members
          (with_names to_lower r.removed peer.members.removed),
      has_name-with_names to_lower k r.removed peer.members.removed,
    ),
    ground (arith, has_name-others to_lower k self r.members []),
    λ new. ground (arith, newly_removed-news k r.removed peer.members gone new),
    λ j. ground (arith, has_name-others to_lower j self r.members []),
  )

  -- The statement that goes out with a removal.
  abbrev pub removal : Bytes → ℕ → Bytes → List Bytes → Members → Roster
  removal self now name drop m =
      let (epoch, claimed) = next_epoch now (dropped to_lower drop m) in
      stated self name epoch (removed_list claimed) claimed

  names-removal :
      (self : Bytes) (now : ℕ) (name : Bytes) (drop : List Bytes) (m : Members) (k : Bytes)
      → All IsNormal m.invited
      → IsNormal self
      → is_empty self ≡ false
      → names to_lower k (removal self now name drop m).members
        ≡ (not (names to_lower k drop) && has_name k m.invited || bytes_eq self k)
  unfolding next_epoch stated room_roster names dropped tombstone
  names-removal self now name drop m k normal mine there =
      let kept = dropped to_lower drop m in
      ground (
        arith,
        names-sort_strings to_lower k (kept.invited ++ self ∷ []),
        names-append k kept.invited (self ∷ []),
        names-normal k kept.invited (remove_all-IsNormal drop m normal),
        dropped-names to_lower k drop m,
      )

  removal_removed :
      (self : Bytes) (now : ℕ) (name : Bytes) (drop : List Bytes) (m : Members) (k : Bytes)
      → IsNormal k
      → names to_lower k drop ≡ true
      → names to_lower k (removal self now name drop m).removed ≡ true
  unfolding next_epoch stated removed_list
  removal_removed self now name drop m k normal named =
      let kept = dropped to_lower drop m in
      ground (
        arith,
        names-sort_strings to_lower k kept.removed,
        names-of_element to_lower k kept.removed normal,
        dropped-names to_lower k drop m,
      )

  some_names : (k : Bytes) (ns : List Bytes) → names to_lower k ns ≡ true → (length ns == 0) ≡ false
  unfolding names
  some_names k [] h = absurd (ground (arith, h))
  some_names k (n ∷ ns) h = ground arith

  -- What is sent, and whom the owner is left with.
  rekey_room-sent :
      (send : Roster → List Bytes → Option (List Bytes)) (self : Bytes) (now : ℕ)
      (drop : List Bytes) (room : Room)
      → is_empty self ≡ false
      → room.encrypted ≡ true
      → room.joined ≡ true
      → room.members.owner ≡ self
      → (length drop == 0) ≡ false
      → let r = removal self now room.name drop room.members in
        let owner_side = rekeyed room (rekey_room to_lower send self now drop room) in
        (owner_side.sent
          ≡ (r, outside (normalized to_lower drop) owner_side.members.invited) ∷ room.sent)
        × (owner_side.members.invited ≡ (dropped to_lower drop room.members).invited)
  unfolding rekeyed rekey_room distribute_roster signed_roster mark_chain_stale next_epoch
      accept_owner_epoch
  rekey_room-sent send self now drop room there enc here owns some_name = ground (
    arith,
    dropped_owner to_lower drop room.members,
    bytes_eq_iff room.members.owner self,
    bytes_eq_iff self (dropped to_lower drop room.members).owner,
  )

  -- A removal by the room's owner sends out one statement, to everyone who stays. A peer who pinned
  -- that owner and has heard no later roster of the owner puts those removed out, waits to replace
  -- its chain if a removal was news, and is left with the owner's own list of members.
  pub rekey_room-reaches :
      (send : Roster → List Bytes → Option (List Bytes)) (self : Bytes) (now : ℕ)
      (drop : List Bytes) (room : Room) (peer_self : Bytes) (peer : Room) (k : Bytes)
      → is_empty self ≡ false
      → IsNormal self
      → room.encrypted ≡ true
      → room.joined ≡ true
      → room.members.owner ≡ self
      → All IsNormal room.members.invited
      → peer.members.owner ≡ self
      → ahead_of_owner (removal self now room.name drop room.members).epoch peer.members ≡ true
      → names to_lower k drop ≡ true
      → IsNormal k
      → bytes_eq self k ≡ false
      → let r = removal self now room.name drop room.members in
        let owner_side = rekeyed room (rekey_room to_lower send self now drop room) in
        let after = apply_roster to_lower peer_self r peer in
        (owner_side.sent
          ≡ (r, outside (normalized to_lower drop) owner_side.members.invited) ∷ room.sent)
        × (has_name k after.members.removed ≡ true)
        × (has_name k after.members.invited ≡ false)
        × (has_name k peer.members.removed ≡ false → after.stale ≡ true)
        × ((j : Bytes)
            → has_name j after.members.invited ≡ (
                (has_name j owner_side.members.invited || bytes_eq self j)
                && not (bytes_eq j peer_self)))
  unfolding entitled next_epoch stated
  rekey_room-reaches send self now drop room peer_self peer k there mine enc here owns normal pinned
        ahead named kn other =
      let r = removal self now room.name drop room.members in
      let out =
        rekey_room-sent send self now drop room there enc here owns (some_names k drop named) in
      let at_peer =
        heard peer_self r peer k
          (ground
            (arith, bytes_eq_iff self peer.members.owner, dropped_owner to_lower drop room.members))
          (ground (arith, bytes_eq_iff self peer.members.owner)) ahead
          (removal_removed self now room.name drop room.members k kn named)
          (ground
            (arith, names-removal self now room.name drop room.members k normal mine there)) in
      (
        out.0,
        at_peer.0,
        at_peer.1,
        at_peer.2,
        λ j. ground (
          arith,
          at_peer.3 j,
          out.1,
          names-removal self now room.name drop room.members j normal mine there,
          dropped-names to_lower j drop room.members,
        ),
      )
