-- ===== src/Tests/ChannelRuns.antt =====
-- Concrete runs of a channel and its route server, and their theorems at concrete inputs.
use im_service_modify.Prelude.{◌≡◌, refl, true, some, []}
use im_service_modify.RouteServer.Known.{user, known, changed, change_of}
use im_service_modify.RouteServer.InstanceLaws.{OutcomeKnows, handle_route_message-known}
use im_service_modify.RouteServer.Instance.{handle_route_message, change_route, find_or_add_route}
use im_service_modify.RouteServer.{add_user_id}
use im_service_modify.Maps.{lookup, insert}
use im_service_modify.Channel.{
  subscribe_to, subscribe, add_subscribe, find_or_add_subscriber, enqueue,
}
use im_service_modify.Channel.Counts.{total_count}
use im_service_modify.Channel.Calls.{open_user, run_call}
use im_service_modify.Channel.System.{System, new_system, begin_call, send_next}

-- A user connects by a phone, the message is put into `wt`, sent and taken.
abbrev connected : System
connected = begin_call (open_user 7 42 true) new_system

abbrev waiting : System
waiting = record connected {
  channel = enqueue (subscribe_to 7 42 1) connected.channel;
  outstanding = [];
}

abbrev sent : System
sent = send_next (subscribe_to 7 42 1) [] waiting

abbrev taken : System
taken = record sent { pipe = []; server = change_route 7 (add_user_id 42 true) [] }

waiting-pipe : waiting.pipe ≡ []
unfolding begin_call run_call subscribe add_subscribe find_or_add_subscriber lookup total_count
waiting-pipe = refl

-- The route server has the user as online.
taken_known : known (user 7 42) taken.server ≡ some true
unfolding known change_route find_or_add_route add_user_id lookup insert
taken_known = refl

handle_route_message-known_example :
    OutcomeKnows
      (user 7 42)
      (changed (change_of (subscribe_to 7 42 1) (user 7 42)) (known (user 7 42) []))
      (handle_route_message (subscribe_to 7 42 1) [])
handle_route_message-known_example = handle_route_message-known (subscribe_to 7 42 1) [] (user 7 42)
