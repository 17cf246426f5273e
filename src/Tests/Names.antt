-- ===== src/Tests/Names.antt =====
-- Runs of the theorems on names of nodes.
use poholos.Prelude.{List, [], none, ok, refl, some, ℕ, ◌∷◌, ◌≡◌}
use poholos.NodeId.{NodeId, all, ends_with, hex4, hex_digit, new, starts_with, validate_name}
use poholos.Cli.Main.{ble_kind, node_of, node_of_args, node_of_args-restart}

-- `al` and `al-3f2a`.
abbrev al : List ℕ
al = 97 ∷ 108 ∷ []

abbrev al_full : List ℕ
al_full = 97 ∷ 108 ∷ 45 ∷ 51 ∷ 102 ∷ 50 ∷ 97 ∷ []

abbrev al_id : NodeId
al_id = record { full = al_full }

al_made : new al 0x13f2a ≡ ok al_id
unfolding new validate_name all starts_with ends_with hex4 hex_digit
al_made = refl

al_chosen :
    node_of_args (record { name = some al; id = none; transport = ble_kind }) 0x13f2a ≡ ok al_id
unfolding node_of
al_chosen = al_made

node_of_args-restart_example :
    node_of_args (record { name = none; id = some al_full; transport = ble_kind }) 7 ≡ ok al_id
node_of_args-restart_example =
    node_of_args-restart (record { name = some al; id = none; transport = ble_kind }) 0x13f2a 7
      al_id al_chosen
