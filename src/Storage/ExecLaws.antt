-- ===== src/Storage/ExecLaws.antt =====
-- A slave, or the rebuilding of the index, reaches the index that the master has.
use im_service_modify.Prelude.{ℕ, ◌≡◌, refl, Bool, true, false, if◌then◌else◌, none}
use im_service_modify.Message.Body.{Message, body_of}
use im_service_modify.Storage.Peer.{
  UserId, PeerStorage, message_flag_group, get_peer_index, set_peer_index, has_group_flag, to_body,
  new_link, link_message, next_index, exec_message,
}

group_flag : (g : Bool) → has_group_flag (if g then message_flag_group else 0) ≡ g
group_flag true = refl
group_flag false = refl

-- A storage that rebuilds its index with `execMessage` from the link that `SavePeerMessage`
-- writes sets the same index entry as `SavePeerMessage` itself.
pub exec_message-link :
    (id : UserId) (device_id msgid link_id : ℕ) (g : Bool) (s : PeerStorage)
    → exec_message (link_message g (new_link id device_id msgid (get_peer_index id s))) link_id s
      ≡ set_peer_index id (next_index g link_id (get_peer_index id s)) s
unfolding exec_message to_body new_link
exec_message-link id device_id msgid link_id g s = rw (group_flag g)

-- `execMessage` leaves the index alone on every message that is not a link.
pub exec_message_other :
    (m : Message) (msgid : ℕ) (s : PeerStorage)
    → to_body (body_of m) ≡ none
    → exec_message m msgid s ≡ s
unfolding exec_message
exec_message_other m msgid s e = rw e
