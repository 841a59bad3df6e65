-- ===== src/State/Buddies/Reload.antt =====
-- internal/state/state.go: what a reload of the buddy list keeps, and what it loses.
use bencchat.State.Buddies.{carried, reloaded, replace_buddy_list}
use bencchat.Prelude.{
  List, [], ◌∷◌, Option, none, some, ◌≡◌, ◌≢◌, refl, arith, if◌then◌else◌, length, ◌==◌, false, sym,
  subst,
}
use bencchat.Prelude.Bytes.{Bytes, bytes_eq, bytes_eq_iff}
use bencchat.Prelude.Assoc.{lookup, insert, lookup-insert}
use bencchat.State.ScreenName.{normalize_screen_name}
use bencchat.State.Message.{Buddy, Store, unset, offline, emit}

-- What the server's row says, under the row's key.
abbrev pub Listed : Bytes → Buddy → Buddy → Type 0
Listed k row b =
    (b.screen_name ≡ row.screen_name)
    × (b.key ≡ k)
    × (b.group ≡ row.group)
    × (b.alias ≡ row.alias)
    × (b.blocked ≡ row.blocked)
    × (b.pending ≡ row.pending)
    × (b.e2ee_capable ≡ row.e2ee_capable)
    × (b.caps_known ≡ row.caps_known)

-- What was learned before, with a profile and an icon that the row has itself.
abbrev pub Learned : Buddy → Buddy → Buddy → Type 0
Learned old row b =
    (b.presence ≡ old.presence)
    × (b.away_message ≡ old.away_message)
    × (b.idle_since ≡ old.idle_since)
    × (b.signed_on_at ≡ old.signed_on_at)
    × (row.profile ≡ [] → b.profile ≡ old.profile)
    × (row.profile ≢ [] → b.profile ≡ row.profile)
    × (row.icon_hash ≡ [] → b.icon_hash ≡ old.icon_hash)
    × (row.icon_hash ≢ [] → b.icon_hash ≡ row.icon_hash)

-- Of somebody who is new, what the row says.
abbrev pub Fresh : Buddy → Buddy → Type 0
Fresh row b =
    (row.presence ≡ unset → b.presence ≡ offline)
    × (row.presence ≢ unset → b.presence ≡ row.presence)
    × (b.away_message ≡ row.away_message)
    × (b.idle_since ≡ row.idle_since)
    × (b.signed_on_at ≡ row.signed_on_at)
    × (b.profile ≡ row.profile)
    × (b.icon_hash ≡ row.icon_hash)

-- The buddy under a key after a reload, from the one before and the row that the list has for the key.
unfoldable pub Reloaded : Bytes → Option Buddy → Option Buddy → Option Buddy → Type 0
Reloaded k old none after = after ≡ none
Reloaded k (some old) (some row) after =
    (b : Buddy) × (after ≡ some b) × Listed k row b × Learned old row b
Reloaded k none (some row) after = (b : Buddy) × (after ≡ some b) × Listed k row b × Fresh row b

length_pos : (xs : Bytes) → xs ≢ [] → (length xs == 0) ≡ false
length_pos [] h = absurd (h refl)
length_pos (x ∷ xs) h = ground arith

module _ (to_lower : Bytes → Bytes) where
  -- The last row of a list for a key.
  unfoldable pub last_named : Bytes → List Buddy → Option Buddy
  last_named k [] = none
  last_named k (b ∷ bs) =
      let later = last_named k bs in
      elim later [
        | some c ↦ some c
        | none ↦ if bytes_eq (normalize_screen_name to_lower b.screen_name) k then some b else none
      ]

  -- The entry under a key, where the rest of the list has `row` for it.
  unfoldable entry : List (Bytes × Buddy) → Bytes → Option Buddy → Option Buddy → Option Buddy
  entry known k none before = before
  entry known k (some row) before = some (carried (lookup k known) (record row { key = k }))

  lookup-reloaded :
      (known : List (Bytes × Buddy)) (bs : List Buddy) (next : List (Bytes × Buddy)) (k : Bytes)
      → lookup k (reloaded to_lower known bs next) ≡ entry known k (last_named k bs) (lookup k next)
  unfolding reloaded last_named entry
  lookup-reloaded known [] next k = refl
  lookup-reloaded known (n ∷ ns) next k =
      let key = normalize_screen_name to_lower n.screen_name in
      let row = carried (lookup key known) (record n { key = key }) in
      ground (
        arith,
        lookup-reloaded known ns (insert key row next) k,
        lookup-insert key k row next,
        bytes_eq_iff key k,
      )

  carried-Reloaded :
      (k : Bytes) (old : Option Buddy) (row : Buddy)
      → Reloaded k old (some row) (some (carried old (record row { key = k })))
  unfolding Reloaded carried
  carried-Reloaded k (some old) row = (
    carried (some old) (record row { key = k }),
    refl,
    (refl, refl, refl, refl, refl, refl, refl, refl),
    (
      refl,
      refl,
      refl,
      refl,
      (λ e. ground (arith, e)),
      (λ e. ground (arith, e, length_pos row.profile)),
      (λ e. ground (arith, e)),
      λ e. ground (arith, e, length_pos row.icon_hash),
    ),
  )
  carried-Reloaded k none row =
      (carried none (record row { key = k }), refl, ground arith, ground arith)

  entry-Reloaded :
      (known : List (Bytes × Buddy)) (k : Bytes) (row : Option Buddy)
      → Reloaded k (lookup k known) row (entry known k row none)
  unfolding Reloaded entry
  entry-Reloaded known k none = refl
  entry-Reloaded known k (some row) = carried-Reloaded k (lookup k known) row

  -- After a reload of the list from the server a name is known just if it is listed. Its last row
  -- gives the screen name, the group, the alias, the marks and the capabilities; presence, away message
  -- and times of one who was known before are those from before, and so are a profile and an icon
  -- that the row leaves empty, but the row's where it has them; one who was not known is as the row
  -- says, offline if that does not say.
  pub replace_buddy_list-Reloaded :
      (bs : List Buddy) (groups : List Bytes) (s : Store) (k : Bytes)
      → Reloaded k
          (lookup k s.buddies)
          (last_named k bs)
          (lookup k (replace_buddy_list to_lower bs groups s).buddies)
  unfolding replace_buddy_list emit lookup
  replace_buddy_list-Reloaded bs groups s k =
      subst (Reloaded k (lookup k s.buddies) (last_named k bs))
        (sym (lookup-reloaded s.buddies bs [] k)) (entry-Reloaded s.buddies k (last_named k bs))
