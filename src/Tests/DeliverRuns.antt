-- ===== src/Tests/DeliverRuns.antt =====
-- A concrete group message in the file of pending ones, and the theorems of the sender at it.
use im_service_modify.Prelude.{ℕ, ◌≡◌, refl, none, some, List, [], ◌∷◌, ◌++◌, if◌then◌else◌, ◌==◌}
use im_service_modify.Wire.{write, ok}
use im_service_modify.Route.{new_route, add_client, find_client_set, add_under, add_to_set}
use im_service_modify.Maps.{lookup, insert}
use im_service_modify.Prelude.{true}
use im_service_modify.Message.Pending.{PendingGroupMessage}
use im_service_modify.Deliver.{
  GroupMessageDeliver, Network, save_pending_message, send_group_message, send_members,
  send_message, send_to_clients,
}
use im_service_modify.Deliver.Laws.{pending, pending_records}
use im_service_modify.Storage.File.{write_header}

-- A network that keeps the members it saved for, and the clients with a message, and fails at
-- member 9. Every app has a route, with one client of user 2.
abbrev some_network : Network (List ℕ)
some_network = record {
  save_member_message =
      λ appid member device_id m w. if member == 9 then (none, w) else (some 1, member ∷ w);
  push_message = λ appid member m w. w;
  find_route = λ appid w. some (add_client (record { address = 77; uid = 2 }) (new_route appid));
  device_of = λ address w. 0;
  enqueue_message = λ address m w. address ∷ w;
}

abbrev to_two : PendingGroupMessage
to_two = record {
  appid = 7;
  sender = 1;
  device_id = 3;
  gid = 5;
  timestamp = 11;
  members = 1 ∷ 2 ∷ [];
  content = 104 ∷ 105 ∷ [];
}

abbrev one_file : GroupMessageDeliver
one_file = record {
  file = write_header ++ pending_records (to_two ∷ []);
  cursor_file = write 8 0;
  latest_msgid = 32;
  latest_sended_msgid = 0;
}

-- Both members have their message, and the client of user 2 is told.
to_two-sent : send_group_message some_network to_two [] ≡ ok (true, 77 ∷ 2 ∷ 1 ∷ [])
unfolding send_group_message send_members send_message send_to_clients find_client_set add_client
    add_under add_to_set lookup insert
to_two-sent = refl

abbrev after_save : GroupMessageDeliver
after_save = (save_pending_message (pending to_two) one_file).1
