-- ===== src/Channel/System.antt =====
-- A channel and the route server at the other end of its connection, as a step relation: the
-- messages that are on the way are a list, and a lost connection loses them. `outstanding` holds
-- the messages of the calls that have left the mutex and have not yet put them into `wt`; any of
-- them may be the next, if there is room. A call only begins if no outstanding message is about its
-- user or room: the code does not see to that, so it is a condition of what is stated of the steps.
use im_service_modify.Wire.{ok}
use im_service_modify.RouteServer.Instance.{handle_route_message, AppRoute}
use im_service_modify.Channel.Calls.{run_call, ClientCall, IsAllowed, IsSilent, key_of}
use im_service_modify.Prelude.{◌∷◌, ◌≡◌, ◌++◌, ◌+◌, List, [], ℕ, ◌<◌, length}
use im_service_modify.Channel.Resubscribe.{set_seq, resubscribe_room, resubscribe}
use im_service_modify.Message.Body.{Message}
use im_service_modify.Channel.{new_channel, Channel, enqueue}

pub record System : Type 0 where
  pub channel : Channel
  pub outstanding : List Message
  pub seq : ℕ
  pub pipe : List Message
  pub server : AppRoute

-- Both ends just after they start.
abbrev pub new_system : System
new_system = record { channel = new_channel; outstanding = []; seq = 0; pipe = []; server = [] }

-- A turn of the loop of `RunOnce`: the next message of the channel is sent.
unfoldable pub send_next : Message → List Message → System → System
send_next m rest s = record s {
  channel = record s.channel { wt = rest };
  seq = s.seq + 1;
  pipe = s.pipe ++ set_seq (s.seq + 1) m ∷ [];
}

-- `RunOnce` begins on a new connection, for which the route server has a new client.
unfoldable pub run_once : System → System
run_once s =
    let (seq, users) = resubscribe s.channel 0 in
    let (seq', rooms) = resubscribe_room s.channel seq in
    record s { seq = seq'; pipe = users ++ rooms; server = [] }

-- A call up to the end of its locked part.
unfoldable pub begin_call : ClientCall → System → System
begin_call k s =
    let (messages, c) = run_call k s.channel in
    record s { channel = c; outstanding = s.outstanding ++ messages }

-- The capacity of `wt`.
abbrev pub wt_capacity : ℕ
wt_capacity = 10

-- A message is put into `wt`, sent, or taken by the route server.
pub data Delivery : System → System → Type 0 where
  put :
      (s : System) (m : Message) (before later : List Message)
      → s.outstanding ≡ before ++ m ∷ later
      → length s.channel.wt < wt_capacity
      → Delivery s (record s { channel = enqueue m s.channel; outstanding = before ++ later })
  send :
      (s : System) (m : Message) (rest : List Message)
      → s.channel.wt ≡ m ∷ rest
      → Delivery s (send_next m rest s)
  take_message :
      (s : System) (m : Message) (rest : List Message) (apps : AppRoute)
      → s.pipe ≡ m ∷ rest
      → handle_route_message m s.server ≡ ok apps
      → Delivery s (record s { pipe = rest; server = apps })

pub data Step : System → System → Type 0 where
  client :
      (s : System) (k : ClientCall)
      → IsAllowed k s.channel
      → IsSilent (key_of k) s.outstanding
      → Step s (begin_call k s)
  delivery : (s t : System) → Delivery s t → Step s t
  connect : (s : System) → Step s (run_once s)

pub data Steps : System → System → Type 0 where
  done : (s : System) → Steps s s
  next : (s t u : System) → Step s t → Steps t u → Steps s u

pub data Deliveries : System → System → Type 0 where
  stop : (s : System) → Deliveries s s
  more : (s t u : System) → Delivery s t → Deliveries t u → Deliveries s u
