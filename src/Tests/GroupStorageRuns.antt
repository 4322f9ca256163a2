-- ===== src/Tests/GroupStorageRuns.antt =====
-- The storage of a group's messages at concrete inputs.
use im_service_modify.Prelude.{
  ℕ, suc, ◌*◌, ◌+◌, ◌^◌, ◌<◌, ◌≡◌, refl, List, [], ◌∷◌, take, arith, some,
}
use im_service_modify.Wire.{write, ok}
use im_service_modify.Message.Text.{to_data_im, to_data_im_v1}
use im_service_modify.Message.Body.{Message, Body, message}
use im_service_modify.Message.Creators.{creator, kind_of, msg_group_im}
use im_service_modify.Message.Offline.{GroupOfflineMessage}
use im_service_modify.Message.Frame.{to_data}
use im_service_modify.Message.Fits.{FitsMessage}
use im_service_modify.Storage.File.{write_header, update, opened, open_write_file, next_message_id}
use im_service_modify.Storage.Group.{
  GroupId, GroupStorage, get_last_group_message_id, save_group_message, new_group_link,
  load_group_history_messages,
}
use im_service_modify.Storage.GroupQueue.{IsGroupQueue, FitsGroupLink, group_newer, newest_in_group}
use im_service_modify.Storage.GroupLaws.{PushedToGroup, save_group_message-Pushed}
use im_service_modify.Storage.GroupLoadLaws.{load_group_history_messages-queue}
use im_service_modify.Tests.StorageRuns.{fresh, fresh-IsValid}

abbrev fresh_groups : GroupStorage
fresh_groups = record { file = fresh; message_index = λ id. 0 }

abbrev team : GroupId
team = record { appid = 7; gid = 40 }

abbrev news : Message
news = message msg_group_im 1 1 0 (
    Body.im_message
      (record { sender = 1; receiver = 40; timestamp = 5; msgid = 0; content = 104 ∷ 105 ∷ [] }))

news-Fits : FitsMessage (32 * 1024) news
unfolding FitsMessage creator kind_of to_data to_data_im to_data_im_v1 write
news-Fits = (
  omega arith,
  omega arith,
  omega arith,
  omega arith,
  refl,
  omega arith,
  (
    record {
      sender = omega arith;
      receiver = omega arith;
      timestamp = omega arith;
      msgid = omega arith;
    },
    λ e. absurd (omega arith),
  ),
)

team-Fits :
    FitsGroupLink team 3
      (get_last_group_message_id team fresh_groups)
      (next_message_id fresh_groups.file)
unfolding get_last_group_message_id next_message_id open_write_file update opened write_header write
team-Fits = record {
  appid = omega arith;
  gid = omega arith;
  device = omega arith;
  last = omega arith;
}

block_no-fresh_groups : fresh_groups.file.block_no + 3 < 2 ^ 35
unfolding open_write_file
block_no-fresh_groups = omega arith

save_group_message-Pushed_example :
    (msgid : ℕ) × (s' : GroupStorage) × (save_group_message team 3 news fresh_groups
      ≡ some (msgid, s'))
    × PushedToGroup team 3 news fresh_groups msgid s'
save_group_message-Pushed_example =
    save_group_message-Pushed team 3 news fresh_groups fresh-IsValid block_no-fresh_groups news-Fits
      refl team-Fits

-- The storage after one message.
abbrev after_news : GroupStorage
after_news = save_group_message-Pushed_example.1

abbrev group_queue : List (GroupOfflineMessage × Message)
group_queue =
    (
      new_group_link team 3 save_group_message-Pushed_example.0
          (get_last_group_message_id team fresh_groups),
      news,
    )
    ∷ []

queue_of_news : IsGroupQueue after_news.file (get_last_group_message_id team after_news) group_queue
queue_of_news =
    save_group_message-Pushed_example.3.own [] (unfold get_last_group_message_id in refl)

load_group_history_messages-queue_example :
    load_group_history_messages
      (suc (get_last_group_message_id team after_news))
      team
      0
      3
      10
      after_news
    ≡ ok (take 10 (group_newer 0 3 group_queue), newest_in_group group_queue)
load_group_history_messages-queue_example =
    load_group_history_messages-queue group_queue (suc (get_last_group_message_id team after_news))
      team 0 3 10 after_news queue_of_news (omega arith) (omega arith)
