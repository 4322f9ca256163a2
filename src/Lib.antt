-- ===== src/Lib.antt =====
-- im-service, an instant messaging service in Go: ServerIM accepts the clients, ServerIMR routes
-- messages between the instances of ServerIM, ServerIMS stores them, and serverCommon holds the
-- message format and the data that they share.
--
-- Wire.antt models `encoding/binary` and `bytes.Buffer` as the sources use them. A byte is a number
-- below 256, an integer of n bytes is its two's complement bit pattern, text is its bytes.
--
-- Message.antt and the files below it model the message format.
--   Message/Text.antt, Message/Fixed.antt, Message/Auth.antt: the types of
--     src/serverCommon/model/message.go and src/serverCommon/model/route_message.go with their
--     `ToData` and `FromData`, as `to_data_...` and `from_data_...`.
--   Message/Offline.antt, Message/Pending.antt: those of src/ServerIMS/model/storage_message.go.
--   Message/Body.antt, Message/Creators.antt: `Message`, the types of its body and the tables of
--     commands; Message/Frame.antt: src/serverCommon/model/protocol.go, the writing and receiving
--     of messages, with the messages that hold messages.
--   src/ServerIM/model/storage_message.go, src/ServerIMS/model/protocol.go and the like repeat
--     these files for other packages and are not modelled a second time.
--   A decoder answers with an `Outcome`: a value, a refusal (false or nil in the source) or a panic.
--   Nested messages are received on fuel, one more than the bytes of the connection.
--
-- Storage.antt and the files below it model ServerIMS.
--   Storage/File.antt: src/ServerIMS/model/storage_file.go. The directory of block files is a
--     function from numbers to contents. The mutex makes each operation atomic, so an operation is
--     a function on the state. The cache of open files, which does not change what is read, is not
--     in the state. A disk error ends the program in the source and does not occur in the model.
--   Storage/Peer.antt: the index of src/ServerIMS/model/storage_peer.go, `SavePeerMessage` and
--     `execMessage`; Storage/PeerLoad.antt: the walks along a user's queue, on fuel above the id of
--     the newest link, as each link goes back in the file.
--   Storage/Queue.antt: the queue of a user as a list, which the operations are compared with.
--   Storage/Group.antt: src/ServerIMS/model/storage_group.go, the queue of a super group;
--     Storage/GroupQueue.antt has it as a list.
--   Storage/Sync.antt: src/ServerIMS/model/storage.go, the storage with both indices and what a
--     slave does with the messages of its master.
--   Storage/Rebuild.antt: `createPeerIndex` and `createGroupIndex`, which read the block files from
--     their start, each block on fuel above the number of its messages.
--
-- Route.antt models src/ServerIM/model/route.go and src/ServerIM/model/ClientSet.go, the clients that
-- are connected to an instance by user and by room. RouteServer.antt models
-- src/ServerIMR/model/route.go and src/serverCommon/model/set.go, the users and rooms that the route
-- server knows of an instance; RouteServer/Instance.antt has the routes of all apps of
-- src/serverCommon/model/app_route.go and the handlers of subscriptions of
-- src/ServerIMR/model/Client.go, RouteServer/Publish.antt those of published messages with the
-- search of src/ServerIMR/model/ClientManger.go. FindGroup's answer is an argument, and a push is a
-- value with the arguments of the call that sends it to Redis.
--
-- Channel.antt models src/ServerIM/model/channel.go, the other end of that connection: it counts the
-- connections of users and rooms, in two counts of 16 bits in one number, and sends a message when
-- the route server has to know. Channel/Resubscribe.antt has what it sends first on a new
-- connection. Channel/System.antt puts both ends together, as steps: the part of a client's call
-- that holds the mutex, the putting of a message of such a call into `wt` if it has room, a message
-- that is sent or taken, and a new connection, which loses the messages on the way. The messages of
-- several calls may be put in any order, but a step begins a call only if no message about its user
-- or room is still to be put: the code does not see to that. Messages arrive as they were sent, which
-- the results on frames show of those whose fields fit.
--
-- Deliver.antt models src/ServerIM/model/group_message_deliver.go: the file of group messages that wait
-- to be sent, the cursor, and the sender, on fuel above the number of messages. `sendMessage`
-- panics for an app without a route, and the sender with it. The storage service, `PushMessage`, the
-- map of routes, the devices of clients and `EnqueueMessage` are a record of operations on a state
-- that the model does not know; a set of clients is gone through in the order of its list.
--
-- Group.antt models src/serverCommon/model/group.go. `AddMember` and `RemoveMember` change a copy of
-- the map of members and `SetMemberMute` changes the map itself, which a reader may hold, so the
-- maps stand in a heap. Maps.antt has the maps of Go as association lists.
--
-- Not modelled: sockets, goroutines and channels, HTTP and RPC handlers, Redis and MySQL, the
-- generated RPC code, the client handlers of ServerIM, the group manager, the index files and their
-- repair, and the connection between master and slaves; serverCommon/lru, a copy of a library.
mod Prelude
pub mod Wire
pub mod Message
pub mod Maps
pub mod Group
pub mod Route
pub mod RouteServer
pub mod Channel
pub mod Deliver
pub mod Storage
mod Tests
