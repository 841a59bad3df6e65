-- ===== src/Tests/Rows.antt =====
-- A buddy list with one buddy.
use bencchat.Oscar.Feedbag.Edit.Move.{move_buddy}
use bencchat.Prelude.{◌≡◌, refl, arith, some, List, [], ◌∷◌}
use bencchat.Prelude.Bytes.{bytes_eq}
use bencchat.Prelude.Outcome.{Result}
use bencchat.Oscar.Feedbag.{
  EditError, EditOp, Item, Names, class_buddy, class_group, is_group, is_root, search, greatest,
}
use bencchat.Text.Ascii.{bytes}
use bencchat.Oscar.Feedbag.Edit.{add_buddy, remove_buddy}
use bencchat.Oscar.Feedbag.Replay.{IsList}
use bencchat.Oscar.Feedbag.Fresh.{HasRoom}
use bencchat.Oscar.Feedbag.Reorder.{IsEdit}
use bencchat.Oscar.Feedbag.Removals
use bencchat.Oscar.Feedbag.Additions
use bencchat.Oscar.Feedbag.Moves

abbrev ascii : Names
ascii = record { equal_fold = bytes_eq; to_lower = λ s. s; trim_space = λ s. s }

abbrev root : Item
root = record {
  name = [];
  group_id = 0;
  item_id = 0;
  class_id = class_group;
  tlvs = record { tag = 0xc8; value = 0 ∷ 1 ∷ [] } ∷ [];
}

abbrev friends : Item
friends = record {
  name = bytes "Friends";
  group_id = 1;
  item_id = 0;
  class_id = class_group;
  tlvs = record { tag = 0xc8; value = 0 ∷ 7 ∷ [] } ∷ [];
}

abbrev ann : Item
ann = record { name = bytes "ann"; group_id = 1; item_id = 7; class_id = class_buddy; tlvs = [] }

abbrev rows : List Item
rows = root ∷ friends ∷ ann ∷ []

rows-IsList : IsList rows
unfolding is_group
rows-IsList = record {
  unique = (
    ((λ s. absurd (omega (arith, s.0))), ((λ s. absurd (omega (arith, s.0))), tt)),
    (((λ s. absurd (omega (arith, s.1))), tt), (tt, tt)),
  );
  plain = (
    ((λ e. refl), λ e. absurd (ground (arith, e))),
    (
      ((λ e. refl), λ e. absurd (ground (arith, e))),
      (((λ e. absurd (ground (arith, e))), λ e i. absurd (omega (arith, i))), tt),
    ),
  );
}

rows-HasRoom : HasRoom rows
unfolding greatest is_group
rows-HasRoom = record { item_room = omega arith; group_room = omega arith }

rows-root_index : search is_root rows ≡ some (0, root)
unfolding search is_root
rows-root_index = refl

add_buddy-IsEdit_example : IsEdit rows (add_buddy ascii (bytes "bob") (bytes "Work") rows)
add_buddy-IsEdit_example =
    Additions.add_buddy-IsEdit ascii rows rows-IsList rows-HasRoom (bytes "bob") (bytes "Work")

remove_buddy-IsEdit_example : IsEdit rows (remove_buddy ascii (bytes "ann") rows)
remove_buddy-IsEdit_example = Removals.remove_buddy-IsEdit ascii (bytes "ann") rows rows-IsList

move_buddy-IsEdit_example :
    (result : Result EditError (List EditOp) × List Item) × (move_buddy ascii
        (bytes "ann")
        (bytes "Work")
        rows
      ≡ some result)
    × IsEdit rows result
move_buddy-IsEdit_example =
    Moves.move_buddy-IsEdit ascii rows rows-IsList rows-HasRoom (bytes "ann") (bytes "Work") 0 root
      rows-root_index
