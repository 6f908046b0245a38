-- ===== src/Lib.antt =====
-- The message queue node of eventter, mq: the queue of a consumer group, the replicated state of
-- the cluster, the requests and the reconciler that change it, the matching of messages to consumer
-- groups, and the files of segments.
--
-- A node keeps messages in segments, files that are replicated between nodes. Which segments,
-- topics, consumer groups and nodes there are is the state of the cluster, which every node
-- computes from the log of raft. For a consumer group, a node reads the segments of the topics that
-- the group is bound to and offers the messages to an in-memory queue, from which subscriptions
-- lease them; an acknowledged message is committed, and the commits go back into a segment. On the
-- leader of the nodes, requests and the reconciler look at the state and answer with commands for
-- the log: the handlers open, close and rotate segments, and the reconciler keeps their replicas.
--
-- Base: what the other files share: lists, tests and searches over native numbers.
--
-- Consumers: mq/consumers, the queue of a consumer group. `Consumers/Data` has the structs,
-- `Consumers/Group` group.go (NewGroup, Offer, Subscribe, Close), `Consumers/Subscription`
-- subscription.go (Next, Ack, Nack, Close and the setters). The slice of messages is a list that
-- operations take and return with the subscription that shares it. An operation that can block is
-- the region from its lock on as one step, which answers `wait` where the code waits for the
-- condition variable. `Next` copies the slot that it leased just behind that region; the copy is
-- taken as of its end. The loops from `read` to `write` run on fuel, the length of the slice, and
-- `read` reaches `write` sooner whenever both are inside the slice. A counter wraps as its machine
-- type does. The commits that Ack collects under its lock are a list in the result of `ack`; it
-- sends them to the channel behind its unlock, which `Consumers/History` has as steps of their own,
-- so that the sends of two Acks may come in any order. `Consumers/Steps` and `Consumers/History`
-- are on runs of a group, `Consumers/Accounting` and `Consumers/Turns` on what one subscription
-- holds, `Consumers/Closing` and `Consumers/Stuck` on closing one.
--
-- Cluster: mq/cluster_state*.go, the state of the cluster. `Cluster/Data` has the messages of
-- cluster_state.proto, `Cluster/Queries` cluster_state_queries.go, `Cluster/Namespaces`,
-- `Cluster/Topics`, `Cluster/Groups`, `Cluster/Segments` and `Cluster/Nodes` the commands, each a
-- function of the state, and `Cluster/Store` the dispatch and the compare-and-swap loop of
-- cluster_state_store.go. A panic is `none`. Go's sort.Slice and sort.Search are a parameter,
-- `SortLib`, with what they document; `Cluster/Insertion` has functions that do so. The state that
-- the code shares between versions is not written to after it is published, and is a value.
--
-- Match: mq/match.go, which messages a consumer group is given. `Match/Keys` has routingKeyMatches
-- over lists of bytes. Its recursion takes as fuel one more than the bytes of the pattern and of
-- the key, of which each call and each round of its loop drops one. `Match/Words` and
-- `Match/Topics` have the words of a key and the matching of words that it is compared with.
-- `Match/Messages` has messageMatches, with reflect.DeepEqual as a parameter, and `Match/Bindings`
-- is on the order of bindings.
--
-- Segments: mq/segments, the files of messages. `Segments/Varint` has what is used of Go's package
-- encoding/binary, `Segments/File` file.go and iterator.go, `Segments/Dir` dir.go;
-- `Segments/Frames`, `Segments/Opening` and `Segments/Reading` are on what a file holds,
-- `Segments/Entries`, `Segments/Others` and `Segments/Use` on users of a file. Release is
-- `release_id` for the file that is kept under its id, and `release_file` for one that no longer is
-- as well. What the operating system holds for a file is its bytes; what may come of a write is an
-- argument. The loop of Open has as fuel the bytes behind the version, and each round goes one byte
-- further at least. Where a length fits no int64, which sends that loop backwards, leaves it where
-- it is or lets it go a few bytes on, the model stops. The 64 maps of a directory are one list,
-- since an id always goes to the same one.
--
-- Reconcile: mq/reconciler*.go, what the leader makes of the state. `Reconcile/Outcome` has what
-- the parts share, `Reconcile/Replicas` the choice of nodes, `Reconcile/Open` and
-- `Reconcile/Closed` reconciler_segments.go, `Reconcile/Groups` reconciler_consumer_groups.go,
-- `Reconcile/Members` reconciler_nodes.go and reconciler_namespaces.go. A function of the code is
-- the commands that it applies: where `Apply` fails, the code logs that and goes on, but for the
-- end of ReconcileNodes, which is taken where `Apply` goes through, and for the count of a node
-- that is given a segment of commits. A nil pointer of the map of nodes is a panic. The members,
-- the time, the ids that are handed out and the sizes of segments that other nodes answer are
-- arguments; a number of replicas is one that a uint32 holds. The loop over the candidates has as
-- fuel their number, and takes one in each round. `Reconcile/Kept`, `Reconcile/Picks`,
-- `Reconcile/Candidates`, `Reconcile/OpenBalance`, `Reconcile/OpenSettled`, `Reconcile/Largest`,
-- `Reconcile/Promoted` and `Reconcile/Upkeep` are on open segments, `Reconcile/ClosedBalance`,
-- `Reconcile/ClosedSettled` and `Reconcile/Retention` on closed ones, `Reconcile/Completion` on a
-- whole pass, `Reconcile/Keys`, `Reconcile/Commits`, `Reconcile/Wanted` and `Reconcile/Placement`
-- on consumer groups and `Reconcile/Membership` on nodes.
--
-- Handlers: mq/server_*.go, the requests that change the state, from their transactions on: on the
-- leader and after Validate. `Handlers/Opening` has txSegmentOpen of server_segment_create.go,
-- `Handlers/Closing` server_segment_close.go, server_segment_replica_close.go and
-- server_segment_rotate.go, `Handlers/Requests` the requests on namespaces, topics and consumer
-- groups. An answer has the commands that are applied; where `Apply` fails the request ends, but
-- for an update of offset commits behind a new segment, which is logged. The random number, the
-- time and the size of a group that asks for none are arguments. The loops have as fuel the numbers
-- of shards and of candidates, one of which each round takes. `Handlers/Generations`,
-- `Handlers/Replication`, `Handlers/Answers` and `Handlers/Places` are on opening a segment,
-- `Handlers/Copies` and `Handlers/Rotation` on closing one, where SegmentReplicaClose may panic,
-- `Handlers/Running`, `Handlers/Effects` and `Handlers/Bound` on the other requests.
--
-- Validation: mq/emq/request_validation.go, what a request is refused for. `Validation/Rules` has
-- the Validate methods, with the two regular expressions as functions on the characters, and
-- `Validation/Accepted` what they accept.
--
-- Not modelled: the encodings of log entries and snapshots, which are the protobuf library's; raft,
-- memberlist, gRPC and AMQP with their sockets; the handlers that list, publish and subscribe,
-- passing a request on to the leader, and the background tasks; the command line, the development
-- tool of livereload and the web site.
pub mod Base
pub mod Cluster
pub mod Consumers
pub mod Handlers
pub mod Match
pub mod Reconcile
pub mod Segments
pub mod Validation
