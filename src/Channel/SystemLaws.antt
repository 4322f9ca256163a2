-- ===== src/Channel/SystemLaws.antt =====
-- What holds of a channel and its route server in every order of calls, deliveries and lost
-- connections.
use im_service_modify.Prelude.{
  ◌≡◌, refl, sym, ap, ◌∙◌, inl, inr, ◌⊎◌, subst, ◌∷◌, Bool, Option, none, List, [], ◌++◌,
  append_assoc,
}
use im_service_modify.Channel.HandledLaws.{resubscribe-AreHandled, AreHandled-append}
use im_service_modify.Channel.RoomLaws.{unsubscribe_room-Sends, subscribe_room-Sends}
use im_service_modify.Channel.CloseLaws.{unsubscribe-Sends}
use im_service_modify.Channel.CallLaws.{subscribe-Sends}
use im_service_modify.Channel.ResubscribeLaws.{after-resubscribe}
use im_service_modify.Channel.MapLaws.{run_call-IsChannelMap, IsChannelMap}
use im_service_modify.Channel.{Channel, Called}
use im_service_modify.Channel.Resubscribe.{resubscribe_room, resubscribe}
use im_service_modify.Maps.{lookup}
use im_service_modify.Channel.View.{view, IsCounted}
use im_service_modify.RouteServer.Known.{
  group_room, user, after-append, after-cases, after, Key, known,
}
use im_service_modify.Message.Body.{Message}
use im_service_modify.Channel.System.{run_once, System, begin_call}
use im_service_modify.Channel.Calls.{
  close_room, open_room, close_user, open_user, Sends, IsAllowed, ClientCall, AreHandled, run_call,
  IsSilent, IsApart, key_of,
}

pub client-Sends :
    (k : ClientCall) (c : Channel) → IsCounted c → IsAllowed k c → Sends (key_of k) c (run_call k c)
unfolding run_call key_of
client-Sends (open_user appid uid online) c i h = subscribe-Sends appid uid online c i h
client-Sends (close_user appid uid online) c i h = unsubscribe-Sends appid uid online c i h
client-Sends (open_room appid room_id) c i h = subscribe_room-Sends appid room_id c i h
client-Sends (close_room appid room_id) c i h = unsubscribe_room-Sends appid room_id c i

-- The messages on the way, waiting and outstanding bring the route server to what the channel
-- knows, and the waiting and outstanding ones do so too if it already knows that.
pub record IsConsistent (s : System) : Type 0 where
  pub counted : IsCounted s.channel
  pub maps : IsChannelMap s.channel
  pub pipe_handled : AreHandled s.pipe
  pub wt_handled : AreHandled s.channel.wt
  pub outstanding_handled : AreHandled s.outstanding
  pub apart : IsApart s.outstanding
  pub pending :
      (key : Key)
      → after (s.pipe ++ (s.channel.wt ++ s.outstanding)) key (known key s.server)
        ≡ view key s.channel
  pub settled :
      (key : Key)
      → after (s.channel.wt ++ s.outstanding) key (view key s.channel) ≡ view key s.channel

-- A new view settles: either its messages are silent about the key, or they decide.
settled-after :
    (ms wt : List Message) (key : Key) (old new : Option Bool)
    → after wt key old ≡ old
    → after ms key old ≡ new
    → after (wt ++ ms) key new ≡ new
settled-after ms wt key old new h g = elim (after-cases ms key) [
  | inl same ↦
      after-append wt ms key new
      ∙ same (after wt key new)
      ∙ ap (after wt key) (sym g ∙ same old)
      ∙ h
      ∙ sym (same old)
      ∙ g
  | inr (x, all) ↦ after-append wt ms key new ∙ all (after wt key new) ∙ sym (all old) ∙ g
]

IsSilent-append :
    (key : Key) (ms ns : List Message) → IsSilent key ms → IsSilent key ns → IsSilent key (ms ++ ns)
unfolding IsSilent
IsSilent-append key [] ns h g = g
IsSilent-append key (m ∷ ms) ns (e, h) g = (e, IsSilent-append key ms ns h g)

IsApart-append :
    (ms ns : List Message)
    → IsApart ms
    → IsApart ns
    → ((key : Key) → IsSilent key ms ⊎ IsSilent key ns)
    → IsApart (ms ++ ns)
unfolding IsApart IsSilent
IsApart-append [] ns a b d = b
IsApart-append (m ∷ ms) ns (f, a) b d = (
  λ key. elim (f key) [
    | inl e ↦ inl e
    | inr h ↦ elim (d key) [ inl (e, g) ↦ inl e | inr g ↦ inr (IsSilent-append key ms ns h g) ]
  ],
  IsApart-append ms ns a b (λ key. elim (d key) [ inl (e, g) ↦ inl g | inr g ↦ inr g ]),
)

-- The messages of a call about which no message is outstanding.
call-IsApart :
    (k : Key) (c : Channel) (r : Called) (out : List Message)
    → Sends k c r
    → IsApart out
    → IsSilent k out
    → IsApart (out ++ r.0)
call-IsApart k c r out e a f = IsApart-append out r.0 a e.apart (λ key. elim (e.own key) [
  | inl h ↦ inr h
  | inr same ↦ inl (subst (λ j. IsSilent j out) (sym same) f)
])

pub client-IsConsistent :
    (s : System) (k : ClientCall)
    → IsConsistent s
    → IsAllowed k s.channel
    → IsSilent (key_of k) s.outstanding
    → IsConsistent (begin_call k s)
unfolding begin_call
client-IsConsistent s k i a f =
    let e = client-Sends k s.channel i.counted a in
    let r = run_call k s.channel in
    let w : List Message = s.channel.wt ++ s.outstanding in
    let regroup : r.1.wt ++ (s.outstanding ++ r.0) ≡ w ++ r.0 =
      ap (λ v. v ++ (s.outstanding ++ r.0)) e.waiting
      ∙ sym (append_assoc s.channel.wt s.outstanding r.0) in
    record {
      counted = e.counted;
      maps = run_call-IsChannelMap k s.channel i.maps;
      pipe_handled = i.pipe_handled;
      wt_handled = rw e.waiting i.wt_handled;
      outstanding_handled = AreHandled-append s.outstanding r.0 i.outstanding_handled e.handled;
      apart = call-IsApart (key_of k) s.channel r s.outstanding e i.apart f;
      pending = λ key.
          ap (λ v. after (s.pipe ++ v) key (known key s.server)) regroup
          ∙ ap (λ v. after v key (known key s.server)) (sym (append_assoc s.pipe w r.0))
          ∙ after-append (s.pipe ++ w) r.0 key (known key s.server)
          ∙ ap (after r.0 key) (i.pending key)
          ∙ e.tells key;
      settled = λ key.
          ap (λ v. after v key (view key r.1)) regroup
          ∙ settled-after r.0 w key (view key s.channel) (view key r.1) (i.settled key)
              (e.tells key);
    }

known-nothing : (key : Key) → known key [] ≡ none
unfolding known lookup
known-nothing (user a u) = refl
known-nothing (group_room a j) = refl

pub connect-IsConsistent : (s : System) → IsConsistent s → IsConsistent (run_once s)
unfolding run_once known
connect-IsConsistent s i =
    let us = (resubscribe s.channel 0).1 in
    let n = (resubscribe s.channel 0).0 in
    let rs = (resubscribe_room s.channel n).1 in
    record {
      counted = i.counted;
      maps = i.maps;
      pipe_handled = resubscribe-AreHandled s.channel n;
      wt_handled = i.wt_handled;
      outstanding_handled = i.outstanding_handled;
      apart = i.apart;
      pending = λ key.
          after-append (us ++ rs) (s.channel.wt ++ s.outstanding) key (known key [])
          ∙ ap (λ o. after (s.channel.wt ++ s.outstanding) key (after (us ++ rs) key o))
              (known-nothing key)
          ∙ ap (after (s.channel.wt ++ s.outstanding) key)
              (after-resubscribe s.channel key n i.maps)
          ∙ i.settled key;
      settled = i.settled;
    }
