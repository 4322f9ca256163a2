-- ===== src/RouteServer/PublishLaws.antt =====
-- Which instances a published message goes to, and when it is pushed.
use im_service_modify.Prelude.{
  ℕ, ◌≡◌, ◌/◌, ◌%◌, refl, sym, ap, ◌∙◌, inl, inr, Bool, true, false, not, ◌&&◌, Option, none, some,
  List, [], ◌∷◌, arith, if◌then◌else◌, ◌==◌, Bool-cases, ==→eq,
}
use im_service_modify.RouteServer.{has_value}
use im_service_modify.Maps.{IsMap, lookup}
use im_service_modify.RouteServer.Instance.{contain_app_room_id, AppRoute}
use im_service_modify.Message.Body.{message, Message}
use im_service_modify.RouteServer.{has_value}
use im_service_modify.Message.Body.{Body, ptr, Message}
use im_service_modify.Message.Creators.{
  any_eq, msg_publish_room, msg_im, msg_group_im, msg_customer, msg_customer_support, msg_system,
}
use im_service_modify.Message.Body.{cmd_of, flag_of}
use im_service_modify.Wire.{ok}
use im_service_modify.RouteServer.Publish.{
  find_app_room_clients, handle_publish_room, Push, select, send_others, Instances,
}

-- The messages that are put into an instance's channel, in order.
unfoldable pub sent_to : ℕ → List (ℕ × Message) → List Message
sent_to j [] = []
sent_to j ((c, m) ∷ sends) = let rest = sent_to j sends in if j == c then m ∷ rest else rest

-- The chat, customer and system messages, which are stored.
abbrev pub stored_commands : List ℕ
stored_commands = msg_im ∷ msg_group_im ∷ msg_customer ∷ msg_customer_support ∷ msg_system ∷ []

abbrev pub is_stored : Message → Bool
is_stored m = any_eq (cmd_of m) stored_commands && (flag_of m / 2 % 2 == 0)

abbrev pub holds_for : (AppRoute → Bool) → Option AppRoute → Bool
holds_for f none = false
holds_for f (some apps) = f apps

-- Every other instance that is selected gets the message once.
sent-send_others :
    (self j : ℕ) (m : Message) (f : AppRoute → Bool) (cs : Instances)
    → IsMap cs
    → sent_to j (send_others self m (select f cs))
      ≡ (if not (j == self) && holds_for f (lookup j cs) then m ∷ [] else [])
unfolding sent_to send_others select lookup IsMap
sent-send_others self j m f [] i = ground arith
sent-send_others self j m f ((c, apps) ∷ cs) (h, i) = elim (Bool-cases (j == c)) [
  | inl e ↦ ground (arith, e, h, ==→eq j c e, sent-send_others self j m f cs i)
  | inr e ↦ ground (arith, e, sent-send_others self j m f cs i)
]

sent-publish :
    (b : Bool) (self j : ℕ) (m : Message) (f : AppRoute → Bool) (cs : Instances)
    → IsMap cs
    → sent_to j (if b then [] else send_others self m (select f cs))
      ≡ (if not b && (not (j == self) && holds_for f (lookup j cs)) then m ∷ [] else [])
unfolding sent_to
sent-publish true self j m f cs i = refl
sent-publish false self j m f cs i = sent-send_others self j m f cs i

-- What `HandlePublishRoom` answers for a message in an `AppMessage`: the message is sent on, once
-- and as it came, in an `MSG_PUBLISH_ROOM` to exactly the other instances that have the room, and
-- nothing else is sent to any instance.
pub handle_publish_room-recipients :
    (self appid receiver msgid device_id timestamp j : ℕ) (m : Message) (cs : Instances)
    (pushes : List Push) (sends : List (ℕ × Message))
    → IsMap cs
    → handle_publish_room self
        (Body.app_message appid receiver msgid device_id timestamp (ptr m))
        cs
      ≡ ok (pushes, sends)
    → sent_to j sends ≡ (
        if not (j == self) && holds_for (contain_app_room_id appid receiver) (lookup j cs)
        then message msg_publish_room 0 0 0
            (Body.app_message appid receiver msgid device_id timestamp (ptr m))
          ∷ []
        else [])
unfolding handle_publish_room
handle_publish_room-recipients self appid receiver msgid device_id timestamp j m cs pushes sends i
      e =
    let m' =
      message msg_publish_room 0 0 0
        (Body.app_message appid receiver msgid device_id timestamp (ptr m)) in
    let rs : send_others self m' (find_app_room_clients appid receiver cs) ≡ sends = cc e in
    ap (sent_to j) (sym rs) ∙ sent-publish false self j m' (contain_app_room_id appid receiver) cs i
