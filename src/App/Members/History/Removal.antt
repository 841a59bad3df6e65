-- ===== src/App/Members/History/Removal.antt =====
-- app_room_e2ee.go: what a removal is worth over a room's history, accepted invitations and restarts
-- included.
use bencchat.App.Members.Authority.{Room, dropped, installed}
use bencchat.Prelude.{
  true, false, List, [], ◌∷◌, ◌≡◌, arith, inl, inr, subst, sym, All, ◌≢◌, ◌⊎◌, ◌||◌, some, none,
}
use bencchat.Prelude.Bytes.{Bytes, bytes_eq, bytes_eq_iff}
use bencchat.State.ScreenName.{has_name}
use bencchat.App.Members.History.Adoption.{
  claims, adopt_invite_state-none, adopt_invite_state-some, restart_name, reload_name,
}
use bencchat.App.Members.{
  Members, is_empty, pin_owner, norm, with_names, tombstone, set_all, accept_owner_epoch,
}
use bencchat.App.Members.Sets.{
  names, has_name-with_names, has_name-without_names, has_name-others, has_name-add_all,
  add_all_rest,
}
use bencchat.App.Members.Apart.{
  IsApart, add_all-IsApart, installed-IsApart, dropped-IsApart, dropped-names, dropped_owner,
}
use bencchat.App.Members.History.{
  Event, arrives, removes, invites, adopts, creates, restarts, reloads, happen, history, SameSets,
  apply_roster_cases, rekey_room_cases, invite_to_room_name,
}

SameSets-IsApart : (m n : Members) → SameSets m n → IsApart m → IsApart n
unfolding SameSets IsApart
SameSets-IsApart m n same h k = rw (same.0, same.1) (h k)

-- Taken out of the room, and not in it.
unfoldable pub IsOut : Bytes → Members → Type 0
IsOut k m = (has_name k m.removed ≡ true) × (has_name k m.invited ≡ false)

module _ (to_lower trim_space : Bytes → Bytes) (self : Bytes) where
  -- What keeps members and removals apart: whoever sends an invitation that we accept was not removed,
  -- its roster, where its author calls himself the owner, removes neither him nor a member, and neither
  -- does a record that is applied over the live room remove a member.
  unfoldable pub Admits : Room → Event → Type 0
  Admits room (arrives r) = Unit
  Admits room (removes send now drop) = Unit
  Admits room (invites deliver send now given) = Unit
  Admits room (adopts sender none) = has_name (norm to_lower sender) room.members.removed ≡ false
  Admits room (adopts sender (some r)) =
      (has_name (norm to_lower sender) room.members.removed ≡ false)
      × (claims to_lower r ≡ true
          → (j : Bytes)
          → (bytes_eq (norm to_lower sender) j || has_name j room.members.invited) ≡ true
          → names to_lower j r.removed ≡ false)
  Admits room creates = Unit
  Admits room (restarts prev) = Unit
  Admits room (reloads r) =
      (j : Bytes) → has_name j room.members.invited ≡ true → names to_lower j r.removed ≡ false

  -- The condition on every event, each in the room as the events before left it.
  unfoldable pub Admitted : List Event → Room → Type 0
  Admitted [] room = Unit
  Admitted (e ∷ es) room = Admits room e × Admitted es (happen to_lower trim_space self e room)

  happen-IsApart :
      (e : Event) (room : Room)
      → Admits room e
      → IsApart room.members
      → IsApart (happen to_lower trim_space self e room).members
  unfolding happen IsApart Admits pin_owner
  happen-IsApart (arrives r) room fit h =
      elim (apply_roster_cases to_lower trim_space self r room) [
        | inl same ↦ rw same h
        | inr (inl (_, union)) ↦ rw union (add_all-IsApart to_lower self r.members room.members h)
        | inr (inr (_, _, new)) ↦ rw new (installed-IsApart to_lower self r room.members)
      ]
  happen-IsApart (removes send now drop) room fit h =
      elim (rekey_room_cases to_lower trim_space self send now drop room) [
        | inl same ↦ rw same h
        | inr same ↦
            SameSets-IsApart (dropped to_lower drop room.members) _ same
              (dropped-IsApart to_lower drop room.members h)
      ]
  happen-IsApart (invites deliver send now given) room fit h = λ k.
      ground
        (arith, h k, invite_to_room_name to_lower trim_space self deliver send now given room k)
  happen-IsApart (adopts sender none) room fit h = λ k. ground (
    arith,
    h k,
    adopt_invite_state-none to_lower self sender room k,
    bytes_eq_iff (norm to_lower sender) k,
  )
  happen-IsApart (adopts sender (some r)) room (fresh, spares) h = λ k. ground (
    arith,
    h k,
    λ (c : claims to_lower r ≡ true). spares c k,
    adopt_invite_state-some to_lower self sender r room k,
    bytes_eq_iff (norm to_lower sender) k,
  )
  happen-IsApart creates room fit h = λ k. ground (arith, h k)
  happen-IsApart (restarts prev) room fit h =
      λ k. ground (arith, restart_name to_lower self room.members prev k)
  happen-IsApart (reloads r) room fit h =
      λ k. ground (arith, h k, fit k, reload_name to_lower self r room.members k)

  -- Nobody is a member and removed at once, over any history of rosters, removals, invitations, our own
  -- creation of the room and restarts; and of accepted invitations and records applied over the live
  -- room as long as, each time, the sender of the invitation was not removed, its roster, if its author
  -- calls himself the owner, removes neither the sender nor a member, and the record removes no member.
  pub history-IsApart :
      (es : List Event) (room : Room)
      → Admitted es room
      → IsApart room.members
      → IsApart (history to_lower trim_space self es room).members
  unfolding history Admitted
  history-IsApart [] room fit h = h
  history-IsApart (e ∷ es) room fit h =
      history-IsApart es (happen to_lower trim_space self e room) fit.1
        (happen-IsApart e room fit.0 h)

  -- An event that does not bring the name back: no roster of the owner lists it, it is not the owner
  -- who invites it, we accept no invitation from it, nor one whose roster lists it and is by somebody
  -- who calls himself the owner, and the record of a restart or a reload has this owner or none.
  unfoldable pub Spares : Bytes → Bytes → Event → Type 0
  Spares k owner (arrives r) = norm to_lower r.author ≡ owner → names to_lower k r.members ≡ false
  Spares k owner (removes send now drop) = Unit
  Spares k owner (invites deliver send now given) =
      norm to_lower (trim_space given) ≡ k → owner ≢ self
  Spares k owner (adopts sender none) = bytes_eq (norm to_lower sender) k ≡ false
  Spares k owner (adopts sender (some r)) =
      (bytes_eq (norm to_lower sender) k ≡ false)
      × (claims to_lower r ≡ true → names to_lower k r.members ≡ false)
  Spares k owner creates = Unit
  Spares k owner (restarts prev) = (is_empty prev.owner ≡ true) ⊎ (prev.owner ≡ owner)
  Spares k owner (reloads r) = (is_empty r.owner ≡ true) ⊎ (r.owner ≡ owner)

  happen_owner :
      (k : Bytes) (e : Event) (room : Room)
      → is_empty room.members.owner ≡ false
      → Spares k room.members.owner e
      → (happen to_lower trim_space self e room).members.owner ≡ room.members.owner
  unfolding happen Spares SameSets pin_owner installed accept_owner_epoch set_all tombstone
  happen_owner k (arrives r) room pinned spared = ground (
    arith,
    apply_roster_cases to_lower trim_space self r room,
    add_all_rest to_lower self r.members room.members,
  )
  happen_owner k (removes send now drop) room pinned spared = ground (
    arith,
    rekey_room_cases to_lower trim_space self send now drop room,
    dropped_owner to_lower drop room.members,
  )
  happen_owner k (invites deliver send now given) room pinned spared =
      (invite_to_room_name to_lower trim_space self deliver send now given room []).0
  happen_owner k (adopts sender none) room pinned spared =
      (adopt_invite_state-none to_lower self sender room []).0
  happen_owner k (adopts sender (some r)) room pinned spared =
      (adopt_invite_state-some to_lower self sender r room []).0 pinned
  happen_owner k creates room pinned spared = ground (arith, pinned)
  happen_owner k (restarts prev) room pinned spared =
      (restart_name to_lower self room.members prev []).2 spared
  happen_owner k (reloads r) room pinned spared =
      (reload_name to_lower self r room.members []).2 spared

  happen-IsOut :
      (k : Bytes) (e : Event) (room : Room)
      → norm to_lower k ≡ k
      → is_empty room.members.owner ≡ false
      → Spares k room.members.owner e
      → IsOut k room.members
      → IsOut k (happen to_lower trim_space self e room).members
  unfolding happen IsOut Spares pin_owner SameSets installed accept_owner_epoch set_all tombstone
      has_name
  happen-IsOut k (arrives r) room normal pinned spared out = ground (
    arith,
    apply_roster_cases to_lower trim_space self r room,
    add_all_rest to_lower self r.members room.members,
    has_name-add_all to_lower k self r.members room.members,
    has_name-others to_lower k self r.members [],
    has_name-without_names to_lower k r.members
        (with_names to_lower r.removed room.members.removed),
    has_name-with_names to_lower k r.removed room.members.removed,
  )
  happen-IsOut k (removes send now drop) room normal pinned spared out = ground (
    arith,
    rekey_room_cases to_lower trim_space self send now drop room,
    dropped-names to_lower k drop room.members,
  )
  happen-IsOut k (invites deliver send now given) room normal pinned spared out =
      ground (arith, invite_to_room_name to_lower trim_space self deliver send now given room k)
  happen-IsOut k (adopts sender none) room normal pinned spared out =
      ground (arith, adopt_invite_state-none to_lower self sender room k)
  happen-IsOut k (adopts sender (some r)) room normal pinned spared out =
      ground (arith, adopt_invite_state-some to_lower self sender r room k)
  happen-IsOut k creates room normal pinned spared out = ground (arith, out)
  happen-IsOut k (restarts prev) room normal pinned spared out =
      (restart_name to_lower self room.members prev k).1 normal out.0
  happen-IsOut k (reloads r) room normal pinned spared out =
      ground (arith, reload_name to_lower self r room.members k)

  -- A name that was removed from a room with a pinned owner stays removed, and out, over any history in
  -- which no roster of the owner lists it, the owner does not invite it, no invitation from it is
  -- accepted, nor one whose roster lists it and is by somebody who calls himself the owner, and the
  -- records that a restart merges with or a reload applies have this owner or none.
  pub history-IsOut :
      (k : Bytes) (es : List Event) (room : Room)
      → norm to_lower k ≡ k
      → is_empty room.members.owner ≡ false
      → All (Spares k room.members.owner) es
      → IsOut k room.members
      → IsOut k (history to_lower trim_space self es room).members
  unfolding history
  history-IsOut k [] room normal pinned spared out = out
  history-IsOut k (e ∷ es) room normal pinned spared out =
      let next = happen to_lower trim_space self e room in
      let kept = happen_owner k e room pinned spared.0 in
      history-IsOut k es next normal (subst (λ o. is_empty o ≡ false) (sym kept) pinned)
        (subst (λ o. All (Spares k o) es) (sym kept) spared.1)
        (happen-IsOut k e room normal pinned spared.0 out)
