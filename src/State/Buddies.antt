-- ===== src/State/Buddies.antt =====
-- internal/state/state.go: our own presence and the buddies of a Store.
pub mod Reload
use bencchat.Prelude.{
  ℕ, Bool, true, false, ◌&&◌, not, List, [], ◌∷◌, ◌==◌, if◌then◌else◌, length, Option, none, some,
}
use bencchat.Prelude.Bytes.{Bytes, bytes_eq}
use bencchat.Prelude.Assoc.{lookup, insert}
use bencchat.State.ScreenName.{normalize_screen_name}
use bencchat.State.Message.{
  Presence, unset, offline, online, away, idle, same_flag, Buddy, Self, Event, buddy_list_changed,
  self_changed, buddy_changed, Store, nobody, emit,
}

unfoldable pub set_self : Bytes → Store → Store
unfolding emit
set_self screen_name s =
    emit self_changed
      (record s { own = record s.own { screen_name = screen_name; presence = online } })

unfoldable pub set_away : Bytes → Store → Store
unfolding emit
set_away msg s =
    let here = (if length msg == 0 then online else away) in
    emit self_changed (record s { own = record s.own { away_message = msg; presence = here } })

unfoldable pub set_self_warning : ℕ → Store → Store
unfolding emit
set_self_warning level s =
    emit self_changed (record s { own = record s.own { warning_level = level } })

-- `Reset`. Icons are kept.
unfoldable pub reset : Store → Store
unfolding emit
reset s =
    emit buddy_list_changed
      (record s { own = nobody; buddies = []; group_order = []; conversations = []; rooms = [] })

unfoldable pub have_icon : Bytes → Store → Bool
have_icon icon_hash s = elim (lookup icon_hash s.icons) [ none ↦ false | some image_data ↦ true ]

-- A buddy of a reloaded list, with what was learned before.
unfoldable pub carried : Option Buddy → Buddy → Buddy
carried (some old) b = record b {
  presence = old.presence;
  away_message = old.away_message;
  profile = if length b.profile == 0 then old.profile else b.profile;
  icon_hash = if length b.icon_hash == 0 then old.icon_hash else b.icon_hash;
  idle_since = old.idle_since;
  signed_on_at = old.signed_on_at;
}
carried none b = elim b.presence [
  | unset ↦ record b { presence = offline }
  | offline ↦ b
  | online ↦ b
  | away ↦ b
  | idle ↦ b
]

-- The rest of a change to a buddy who is known: kept, and told of.
unfoldable pub put_buddy : Bytes → Buddy → Store → Store
unfolding emit
put_buddy key b s = emit (buddy_changed b) (record s { buddies = insert key b s.buddies })

unfoldable pub new_buddy_row : Bytes → Bytes → Buddy
new_buddy_row screen_name key = record {
  screen_name = screen_name;
  key = key;
  group = [];
  alias = [];
  presence = unset;
  away_message = [];
  profile = [];
  blocked = false;
  pending = false;
  icon_hash = [];
  e2ee_capable = false;
  caps_known = false;
  idle_since = 0;
  signed_on_at = 0;
}

module _ (to_lower : Bytes → Bytes) where
  unfoldable pub reloaded :
      List (Bytes × Buddy) → List Buddy → List (Bytes × Buddy) → List (Bytes × Buddy)
  unfolding carried
  reloaded known [] next = next
  reloaded known (b ∷ bs) next =
      let key = normalize_screen_name to_lower b.screen_name in
      reloaded known bs (insert key (carried (lookup key known) (record b { key = key })) next)

  unfoldable pub replace_buddy_list : List Buddy → List Bytes → Store → Store
  unfolding reloaded emit
  replace_buddy_list buddies group_order s =
      emit buddy_list_changed
        (record s { buddies = reloaded s.buddies buddies []; group_order = group_order })

  unfoldable pub update_presence : Bytes → Presence → Bytes → ℕ → ℕ → Store → Store
  unfolding put_buddy new_buddy_row
  update_presence screen_name p away_msg idle_since signed_on_at s =
      let key = normalize_screen_name to_lower screen_name in
      let b : Buddy = elim (lookup key s.buddies) [
        | none ↦ new_buddy_row screen_name key
        | some known ↦ known
      ] in
      put_buddy key
        (record b {
          presence = p;
          away_message = away_msg;
          idle_since = idle_since;
          signed_on_at = signed_on_at;
        })
        s

  unfoldable pub set_buddy_away_message : Bytes → Bytes → Store → Store
  unfolding put_buddy
  set_buddy_away_message screen_name msg s =
      let key = normalize_screen_name to_lower screen_name in
      elim (lookup key s.buddies) [
        | none ↦ s
        | some b ↦ put_buddy key (record b { away_message = msg }) s
      ]

  unfoldable pub set_buddy_profile : Bytes → Bytes → Store → Store
  unfolding put_buddy
  set_buddy_profile screen_name profile s =
      let key = normalize_screen_name to_lower screen_name in
      elim (lookup key s.buddies) [
        | none ↦ s
        | some b ↦ put_buddy key (record b { profile = profile }) s
      ]

  unfoldable pub set_buddy_capabilities : Bytes → Bool → Bool → Store → Store
  unfolding put_buddy same_flag
  set_buddy_capabilities screen_name e2ee_capable caps_known s =
      let key = normalize_screen_name to_lower screen_name in
      elim (lookup key s.buddies) [
        | none ↦ s
        | some b ↦
            if same_flag b.e2ee_capable e2ee_capable && same_flag b.caps_known caps_known
            then s
            else put_buddy key (record b { e2ee_capable = e2ee_capable; caps_known = caps_known }) s
      ]

  -- No image_data: only the hash is known so far.
  unfoldable pub set_buddy_icon : Bytes → Bytes → Option Bytes → Store → Store
  unfolding put_buddy
  set_buddy_icon screen_name icon_hash image_data s =
      let key = normalize_screen_name to_lower screen_name in
      elim (lookup key s.buddies) [
        | none ↦ s
        | some b ↦
            put_buddy key (record b { icon_hash = icon_hash })
              (elim image_data [
                | none ↦ s
                | some image ↦
                    if length icon_hash == 0
                    then s
                    else record s { icons = insert icon_hash image s.icons }
              ])
      ]

  unfoldable pub buddy_icon_data : Bytes → Store → Option Bytes
  buddy_icon_data screen_name s =
      elim (lookup (normalize_screen_name to_lower screen_name) s.buddies) [
        | none ↦ none
        | some b ↦ if length b.icon_hash == 0 then none else lookup b.icon_hash s.icons
      ]
