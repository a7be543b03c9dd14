-- ===== src/Lib.antt =====
-- The broker stands between agents and the center: agents come online over one of three tunnels, the
-- broker keeps who is connected, passes requests on, and serves agents' data. This library models the
-- parts of it that keep state or decide something, and proves what they promise.
--
-- Which file models which part (paths from the repository's root):
--   Mlink.SafeMap, Mlink.SegmentMap   bridge/mlink/map.go: the registry of connections, sharded by Fnv
--   Mlink.Hub, Mlink.Ident            bridge/mlink/hub.go, bridge/gateway: Auth, Join, Knockout and the
--                                     rest of what changes the registry, the rows and the tags
--   Mlink.Hub.Steps                   the calls of Join and Knockout of many agents, one step at a time
--   Mlink.Subsection                  bridge/mlink/segment.go: an older registry with its iterator
--   Gateway                           bridge/gateway/join.go: a request to join, around Auth and Join
--   Collect.*                         app/agtapi/collect.go, app/agtsvc/collect.go and
--                                     app/internal/param/collect.go: Param are the reports, Model the
--                                     rows, Replace what the handlers of four tables share, Handlers
--                                     and Host the handlers, Sbom the reports of packages
--   Mgtsvc.*                          app/mgtsvc: Minion is minion.go, Rsync agent_rsync.go and
--                                     agent_reload.go, Notices what is sent to agents
--   Binaries                          app/agtapi/upgrade.go, app/agtsvc/deploy.go: which binary an
--                                     agent downloads, and how many download at once
--   Tags                              app/agtsvc/tag.go
--   Executions, Executions.Push       app/agtapi/task.go, appv2/manager/mservice/task.go: the sending of
--                                     a task to agents, and their reports of it
--   Serverd, Serverd.Frame            channel/serverd: the second tunnel, from its first frame
--                                     (Handle, authentication, join) to disconnect
--   Temporary.*                       app/temporary: the first protocol. Message is its frames,
--                                     LockedMap and BucketMap its table of connections
--                                     (linkhub/concurrent), Linkhub its hub (linkhub/linkhub.go)
--   SharedStrings                     app/agtsvc/shared_strings.go: Get, Set, Store, Incr, Del, with the
--                                     rules of the writes in Rules and the source's own comment on Set
--                                     in Documented
--   TaskDiff                          app/internal/param/diff.go: what an agent must update and delete
--   Pipelog.*                         library/pipelog: Tail is tailN, LimitedFile is file.go,
--                                     Subscribers are those who follow a file
--   Telecom, Telecom.Client           bridge/telecom: the addresses of the center, their order, and the
--                                     dialling of the center
--   Clientd                           channel/clientd: reopening the tunnel to the center
--   Minion, Store                     the rows of agents, and the database
--   Base, GoMap, Shards               what the parts share: texts and numbers, Go's map, a hash-sharded
--                                     map
--
-- How the parts interact: Mlink.Hub holds a SegmentMap of connections and rows in a Store.Table, and
-- Join is two functions, join_start before it serves a connection and join_end after, since the calls
-- of others come in between; Hub.Steps splits it further, at each call of the registry and each
-- statement. Gateway composes Auth and join_start. Mgtsvc.Rsync sends what TaskDiff computes, and
-- Mgtsvc.Notices knocks agents out of the hub. Serverd and Temporary.Linkhub hold the same rows, with a
-- set of peers and a BucketMap in place of the SegmentMap. Each locked method of the source is one step
-- here.
--
-- State is passed explicitly, and a handler of SharedStrings is a do block over a state and a result.
-- A panic (a division by a table's size of zero, an index out of range) is `none`, and the theorems
-- say where there is none. Bytes are natural numbers, int64 and uint32 wrap where the source lets them
-- grow (add64, fnv32); times and durations are integers. Go's maps are association lists whose order
-- stands for the order of one range, which Go leaves open.
--
-- Fuel: decimal_fuel has one unit more than the number has, and a number has at least as many units as
-- digits. tail_loop has one unit for each byte before its position, and each round reads at least one.
-- open_loop stands for a loop without a bound: its fuel is the number of rounds, and its theorem gives
-- the result on any fuel above the number of rounds in which no address answers. So does Client.dial,
-- and its theorem says how many turns are enough. The loop of spinRsync has its own bound, biz.cycle.
--
-- Parameters. The database (gorm) is Store.Table: first, create, update and delete with what gorm
-- documents of them; a statement that fails changes nothing. Store.Memory has these laws. Store.Batch
-- has the statements on many rows: an insertion with OnConflict{DoNothing} writes some of its rows, and
-- if it ends well each row that it left out meets a row of the table on a unique key, a relation that
-- is a parameter too. The ordered queries of Binaries keep to Choice.Ordered. The peers of Serverd are
-- a Huber of ssoc-common/linkhub with its laws. encoding/json, the splitting of addresses by net, the
-- clock, random bytes, KVData.Expired and the outcomes of file operations are arguments.
--
-- Work that a handler gives to a pool is a function of its own, or done at once; the agents that the
-- broker sends messages to are a world that a message changes and that answers it (Mgtsvc.Rsync.Link),
-- and the network that the center is dialled over is another (Telecom.Client.Wire).
--
-- Not modelled: the multiplexer, sockets and HTTP servers, the forwarding of requests to agents, REST
-- handlers that only bind a request and call a service, reflection in AddProc, the table of open log
-- files, the paging of agent_table.go, and reading of the configuration.
pub mod Base
pub mod Binaries
pub mod Clientd
pub mod Collect
pub mod Executions
pub mod Fnv
pub mod Gateway
pub mod GoMap
pub mod Mgtsvc
pub mod Minion
pub mod Mlink
pub mod Pipelog
pub mod Serverd
pub mod Shards
pub mod SharedStrings
pub mod Store
pub mod Tags
pub mod TaskDiff
pub mod Telecom
pub mod Temporary
pub mod Tests
