-- ===== src/Deliver/ResumeLaws.antt =====
-- A file of group messages of which the first ones are sent: every run of the sender goes on behind
-- them, also after a failure or a restart.
use im_service_modify.Prelude.{◌+◌, ◌≡◌, ◌⊎◌, false, none, List, [], ◌∷◌, ◌++◌, length}
use im_service_modify.Wire.{Outcome, ok, panics}
use im_service_modify.Message.Pending.{PendingGroupMessage}
use im_service_modify.Deliver.Laws.{pending_records, delivered}
use im_service_modify.Deliver.{Network, GroupMessageDeliver, send_group_message}
use im_service_modify.Storage.File.{header_size}
use im_service_modify.Deliver.PendingFile.{HasPending}

module _ {ℓ} {W : Type ℓ} (net : Network W) where
  -- The sender stops: all is sent, or the next message fails.
  pub record Stopped (sent unsent : List PendingGroupMessage)
      (result : Outcome (GroupMessageDeliver × W)) : Type ℓ where
    pub now : List PendingGroupMessage
    pub later : List PendingGroupMessage
    pub d' : GroupMessageDeliver
    pub w' : W
    pub split : unsent ≡ now ++ later
    pub leaves : HasPending (sent ++ now) later d'
    pub returns : result ≡ ok (d', w')
    pub why :
        (later ≡ [])
        ⊎ ((gm : PendingGroupMessage) × (gms : List PendingGroupMessage) × (v : W) × (later
              ≡ gm ∷ gms)
            × (send_group_message net gm v ≡ ok (false, w')))

  -- The sender panics, for want of a route, at a message of `d'`, which it had reached.
  pub record Panicked (sent unsent : List PendingGroupMessage)
      (result : Outcome (GroupMessageDeliver × W)) : Type ℓ where
    pub now : List PendingGroupMessage
    pub gm : PendingGroupMessage
    pub later : List PendingGroupMessage
    pub d' : GroupMessageDeliver
    pub w' : W
    pub split : unsent ≡ now ++ gm ∷ later
    pub leaves : HasPending (sent ++ now) (gm ∷ later) d'
    pub reached :
        result
        ≡ delivered net (header_size + length (pending_records (sent ++ now))) (gm ∷ later) d' w'
    pub gives_up : result ≡ panics
    pub v : W
    pub no_route : net.find_route gm.appid v ≡ none
