-- ===== src/Channel/Convergence.antt =====
-- A channel and its route server agree once all is delivered, and can always get there.
use im_service_modify.Prelude.{
  ℕ, ◌+◌, ◌≡◌, refl, sym, ap, ◌∙◌, inl, inr, Bool, Option, List, [], ◌∷◌, ◌++◌, arith, subst,
}
use im_service_modify.RouteServer.InstanceLaws.{handle_route_message-known, OutcomeKnows}
use im_service_modify.Channel.ResubscribeLaws.{change_of-set_seq}
use im_service_modify.Channel.MapLaws.{AreSubscriberMaps}
use im_service_modify.Wire.{ok}
use im_service_modify.Channel.HandledLaws.{set_seq-IsHandled, AreHandled-append}
use im_service_modify.Maps.{IsMap, lookup}
use im_service_modify.Channel.SystemLaws.{connect-IsConsistent, client-IsConsistent, IsConsistent}
use im_service_modify.Channel.Resubscribe.{set_seq}
use im_service_modify.Channel.{new_channel, Channel, enqueue}
use im_service_modify.RouteServer.Instance.{handle_route_message, AppRoute}
use im_service_modify.Channel.Calls.{AreHandled, IsApart}
use im_service_modify.Channel.Apart.{IsApart-without, put-after, AreHandled-without}
use im_service_modify.Message.Body.{Message}
use im_service_modify.Channel.System.{
  connect, delivery, put, next, take_message, client, done, send, new_system, Steps, Step, Delivery,
  System, send_next,
}
use im_service_modify.Channel.View.{room_count, user_count, view}
use im_service_modify.RouteServer.Known.{
  group_room, user, change_of, after-append, changed, after-cases, known, Key, after,
}

-- The first message waiting: it decides, or the others do.
settled-rest :
    (m : Message) (rest : List Message) (key : Key) (old : Option Bool)
    → after (m ∷ rest) key old ≡ old
    → after rest key old ≡ old
unfolding after
settled-rest m rest key old h = elim (after-cases rest key) [
  | inl same ↦ same old
  | inr (x, all) ↦ all old ∙ sym (all (changed (change_of m key) old)) ∙ h
]

view-wt :
    (c : Channel) (wt : List Message) (key : Key) → view key (record c { wt = wt }) ≡ view key c
unfolding view user_count room_count
view-wt c wt (user a u) = refl
view-wt c wt (group_room a j) = refl

after-moved :
    (n : ℕ) (m : Message) (pipe rest : List Message) (key : Key) (old : Option Bool)
    → after ((pipe ++ set_seq n m ∷ []) ++ rest) key old ≡ after (pipe ++ m ∷ rest) key old
unfolding after
after-moved n m pipe rest key old =
    after-append (pipe ++ set_seq n m ∷ []) rest key old
    ∙ ap (after rest key) (
        after-append pipe (set_seq n m ∷ []) key old
        ∙ ap (λ x. changed x (after pipe key old)) (change_of-set_seq n m key))
    ∙ sym (after-append pipe (m ∷ rest) key old)

send-IsConsistent :
    (s : System) (m : Message) (rest : List Message)
    → IsConsistent s
    → s.channel.wt ≡ m ∷ rest
    → IsConsistent (send_next m rest s)
unfolding send_next AreHandled user_count room_count
send-IsConsistent s m rest i e =
    let h : AreHandled (m ∷ rest) = subst AreHandled e i.wt_handled in
    let more_rest : List Message = rest ++ s.outstanding in
    let e' : s.channel.wt ++ s.outstanding ≡ m ∷ more_rest = ap (λ v. v ++ s.outstanding) e in
    record {
      counted = record { users = i.counted.users; rooms = i.counted.rooms };
      maps = record { apps = i.maps.apps; each = i.maps.each };
      pipe_handled =
          AreHandled-append s.pipe (set_seq (s.seq + 1) m ∷ []) i.pipe_handled
            (set_seq-IsHandled (s.seq + 1) m h.0, tt);
      wt_handled = h.1;
      outstanding_handled = i.outstanding_handled;
      apart = i.apart;
      pending = λ key.
          after-moved (s.seq + 1) m s.pipe more_rest key (known key s.server)
          ∙ ap (λ w. after (s.pipe ++ w) key (known key s.server)) (sym e')
          ∙ i.pending key
          ∙ sym (view-wt s.channel rest key);
      settled = λ key.
          ap (after more_rest key) (view-wt s.channel rest key)
          ∙ settled-rest m more_rest key (view key s.channel)
              (ap (λ w. after w key (view key s.channel)) (sym e') ∙ i.settled key)
          ∙ sym (view-wt s.channel rest key);
    }

put-IsConsistent :
    (s : System) (m : Message) (before later : List Message)
    → IsConsistent s
    → s.outstanding ≡ before ++ m ∷ later
    → IsConsistent (record s { channel = enqueue m s.channel; outstanding = before ++ later })
unfolding enqueue user_count room_count AreHandled
put-IsConsistent s m before later i e =
    let wt = s.channel.wt in
    let h : IsApart (before ++ m ∷ later) = subst IsApart e i.apart in
    let (p, q) = AreHandled-without before later m (subst AreHandled e i.outstanding_handled) in
    let new : List Message = (wt ++ m ∷ []) ++ (before ++ later) in
    let same : (key : Key) (old : Option Bool)
        → after new key old ≡ after (wt ++ s.outstanding) key old =
      λ key old.
        put-after wt before later m key old h ∙ ap (λ o. after (wt ++ o) key old) (sym e) in
    record {
      counted = record { users = i.counted.users; rooms = i.counted.rooms };
      maps = record { apps = i.maps.apps; each = i.maps.each };
      pipe_handled = i.pipe_handled;
      wt_handled = AreHandled-append wt (m ∷ []) i.wt_handled (p, tt);
      outstanding_handled = q;
      apart = IsApart-without before later m h;
      pending = λ key.
          after-append s.pipe new key (known key s.server)
          ∙ same key (after s.pipe key (known key s.server))
          ∙ sym (after-append s.pipe (wt ++ s.outstanding) key (known key s.server))
          ∙ i.pending key
          ∙ sym (view-wt s.channel (wt ++ m ∷ []) key);
      settled = λ key.
          ap (after new key) (view-wt s.channel (wt ++ m ∷ []) key)
          ∙ same key (view key s.channel)
          ∙ i.settled key
          ∙ sym (view-wt s.channel (wt ++ m ∷ []) key);
    }

knows-ok :
    (m : Message) (apps apps' : AppRoute) (key : Key)
    → handle_route_message m apps ≡ ok apps'
    → known key apps' ≡ changed (change_of m key) (known key apps)
knows-ok m apps apps' key e =
    let h : OutcomeKnows key (changed (change_of m key) (known key apps)) (ok apps') =
      subst (OutcomeKnows key (changed (change_of m key) (known key apps))) e
        (handle_route_message-known m apps key) in
    h

take-IsConsistent :
    (s : System) (m : Message) (rest : List Message) (apps : AppRoute)
    → IsConsistent s
    → s.pipe ≡ m ∷ rest
    → handle_route_message m s.server ≡ ok apps
    → IsConsistent (record s { pipe = rest; server = apps })
unfolding AreHandled after
take-IsConsistent s m rest apps i e g =
    let h : AreHandled (m ∷ rest) = subst AreHandled e i.pipe_handled in
    record {
      counted = i.counted;
      maps = i.maps;
      pipe_handled = h.1;
      wt_handled = i.wt_handled;
      outstanding_handled = i.outstanding_handled;
      apart = i.apart;
      pending = λ key.
          ap (after (rest ++ (s.channel.wt ++ s.outstanding)) key) (knows-ok m s.server apps key g)
          ∙ ap (λ w. after (w ++ (s.channel.wt ++ s.outstanding)) key (known key s.server)) (sym e)
          ∙ i.pending key;
      settled = i.settled;
    }

pub Delivery-IsConsistent : (s t : System) → Delivery s t → IsConsistent s → IsConsistent t
Delivery-IsConsistent _ _ (put s m before later e l) i = put-IsConsistent s m before later i e
Delivery-IsConsistent _ _ (send s m rest e) i = send-IsConsistent s m rest i e
Delivery-IsConsistent _ _ (take_message s m rest apps e g) i = take-IsConsistent s m rest apps i e g

Step-IsConsistent : (s t : System) → Step s t → IsConsistent s → IsConsistent t
Step-IsConsistent _ _ (client s k a f) i = client-IsConsistent s k i a f
Step-IsConsistent _ _ (delivery s t d) i = Delivery-IsConsistent s t d i
Step-IsConsistent _ _ (connect s) i = connect-IsConsistent s i

pub Steps-IsConsistent : (s t : System) → Steps s t → IsConsistent s → IsConsistent t
Steps-IsConsistent _ _ (done s) i = i
Steps-IsConsistent _ _ (next s t u x xs) i = Steps-IsConsistent t u xs (Step-IsConsistent s t x i)

nothing_yet : (key : Key) → after [] key (known key []) ≡ view key new_channel
unfolding after known view user_count room_count lookup
nothing_yet (user a u) = refl
nothing_yet (group_room a j) = refl

pub new_system-IsConsistent : IsConsistent new_system
unfolding user_count room_count lookup AreHandled after IsApart IsMap AreSubscriberMaps
new_system-IsConsistent = record {
  counted = record { users = λ a u n e. ground (arith, e); rooms = λ a j n e. ground (arith, e) };
  maps = record { apps = tt; each = tt };
  pipe_handled = tt;
  wt_handled = tt;
  outstanding_handled = tt;
  apart = tt;
  pending = nothing_yet;
  settled = λ key. refl;
}

pub quiet :
    (s : System)
    → IsConsistent s
    → s.pipe ≡ []
    → s.channel.wt ≡ []
    → s.outstanding ≡ []
    → (key : Key) → known key s.server ≡ view key s.channel
unfolding after
quiet s i p w o key =
    let none_left : s.pipe ++ (s.channel.wt ++ s.outstanding) ≡ [] =
      ap (λ v. v ++ (s.channel.wt ++ s.outstanding)) p ∙ ap (λ v. v ++ s.outstanding) w ∙ o in
    sym (ap (λ m. after m key (known key s.server)) none_left) ∙ i.pending key
