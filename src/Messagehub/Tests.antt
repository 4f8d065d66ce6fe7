-- ===== src/Messagehub/Tests.antt =====
-- librcom/src/messagehub.c: a hub of two links, one of which is lost, and the theorems on it.
use rcom.Rlib.{list_lists}
use rcom.Base.{◌++◌, refl, true, false, none, negsuc, [], ◌∷◌, ◌≡◌, codes}
use rcom.Link.{Link, opened, send_text}
use rcom.Messagehub.{
  pointers, Member, Hub, messagehub_broadcast_text, messagehub_add_link, messagehub_remove_link,
  messagehub_delete_closed_links,
}
use rcom.Messagehub.Broadcast.{broadcast_text_lem}
use rcom.Messagehub.Life.{
  Steps-IsApart, IsApart, all_places, Memory, Steps, moves, stays, opens, closes, cleans,
}

abbrev open_link : Link
open_link = record {
  state = opened;
  close_code = 0;
  is_client = false;
  socket = true;
  has_onclose = true;
  closed_calls = 0;
  pongs = [];
  sends = [];
  sent = [];
}

abbrev lost : Member
lost = record { pointer = 1; link = record open_link { socket = false } }

abbrev good : Member
good = record { pointer = 2; link = open_link }

abbrev hub : Hub
hub = record { links = lost ∷ good ∷ []; closed_links = [] }

broadcast_text_lem_example : messagehub_broadcast_text hub none (codes "on") ≡ (
  negsuc 0,
  record hub {
    links = lost ∷ record good { link = record open_link { sent = (1, codes "on") ∷ [] } } ∷ [];
  },
)
unfolding send_text
broadcast_text_lem_example = broadcast_text_lem none (codes "on") hub

abbrev new_hub : Hub
new_hub = record { links = []; closed_links = [] }

abbrev one_open : Hub
one_open = messagehub_add_link list_lists new_hub good

abbrev one_closed : Hub
one_closed = messagehub_remove_link list_lists one_open good

abbrev none_left : Hub
none_left = (messagehub_delete_closed_links one_closed).0

abbrev before_life : Memory
before_life = record { hub = new_hub; freed = [] }

abbrev opened_life : Memory
opened_life = record { hub = one_open; freed = [] }

abbrev closed_life : Memory
closed_life = record { hub = one_closed; freed = [] }

abbrev after_life : Memory
after_life = record {
  hub = none_left;
  freed = pointers (messagehub_delete_closed_links one_closed).1 ++ [];
}

a_life : Steps list_lists before_life after_life
unfolding messagehub_add_link
a_life = moves before_life opened_life after_life (opens before_life good tt) (
    moves opened_life closed_life after_life (closes opened_life [] [] good refl)
      (moves closed_life after_life after_life (cleans closed_life) (stays after_life)))

Steps-IsApart_example : IsApart (all_places after_life)
Steps-IsApart_example = Steps-IsApart list_lists before_life after_life a_life tt
