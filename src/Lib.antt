-- ===== src/Lib.antt =====
-- fbmeshd: a daemon for 802.11s mesh networks. This library models its own logic and proves what the
-- parts promise. Paths are from the repository's root.
--
-- The parts and how they interact
--   Dampener   fbmeshd/gateway-connectivity-monitor/RouteDampener.cpp. The state is the penalty (history),
--              whether the route is dampened, and whether each of the two timers is scheduled. flap,
--              half_life_callback and max_suppress_limit_callback are flap and the callbacks of the
--              timers; every call of a virtual function is an effect, in order.
--   Gateway    fbmeshd/gateway-connectivity-monitor/GatewayConnectivityMonitor.cpp. It derives from the
--              dampener and answers its effects (react); probe_wan_connectivity_robustly and on_probed
--              are probeWanConnectivityRobustly and checkRoutesAndAdvertise. It makes the node a
--              gateway through Routing::setGatewayStatus, an action here.
--   Routing    fbmeshd/routing/Routing.cpp. Routing is the state, with the table of paths as an
--              association list; Routing/Process has hwmpPannFrameProcess in the pieces of the code,
--              Routing/Timers the timers and setGatewayStatus, Routing/Wire the packets. The handler
--              takes what the metric manager reports as the list stas.
--   Metric     fbmeshd/routing/MetricManager80211s.cpp. bitrate_to_airtime, rssi_to_airtime,
--              update_metrics and get_link_metrics are the functions of those names.
--   Rnl        fbmeshd/rnl/NetlinkTypes.cpp (routes and their equality) and, in the children,
--              fbmeshd/rnl/NetlinkSocket.cpp: Socket has the caches, Unicast, Mpls, Multicast and Link
--              the routes of each kind, Cache the routes read from the kernel, Events links and
--              neighbours, Addresses the addresses of an interface and their sync, Requests the
--              dispatch of the requests of a client. Builder has the builders of routes and next hops.
--   Netlink    fbmeshd/rnl/NetlinkMessage.cpp: Netlink is the queue of NetlinkProtocolSocket, with
--              sendNetlinkMessage, addNetlinkMessage and processAck, Receive is processMessage,
--              Requests getReturnStatus, Calls the calls for one and for several routes. Attributes,
--              NextHops and RouteMessage are the message of a route, AddrMessage that of an address
--              (fbmeshd/rnl/NetlinkRoute.cpp).
--              A request is the number of its promise, and the state lists what has been sent and
--              what the promises have got.
--   SyncRoutes fbmeshd/routing/SyncRoutes80211s.cpp: doSyncRoutes in the pieces of the code. Gates has
--              the loop that looks for the best gate, SyncRoutes the unicast routes of the mesh paths,
--              Run the link routes, the addresses and the whole run, over the sockets of Rnl and the
--              mesh paths of Routing.
--   Mesh       fbmeshd/802.11s, the handler of the wireless driver. Mesh/Handler has the state of
--              Nl80211Handler and NetInterface and the calls of the driver; Settings validates the
--              flags, Wiphy is populateNetifs, Apply the constructor with applyConfiguration and
--              tearDown, Links the interfaces and leaving, Join joining, Commands the messages for
--              peers, keys and the mesh, Dumps what is read of stations and paths, Events processEvent.
--              Sae and Callbacks are AuthsaeConfigHelpers.cpp and AuthsaeCallbackHelpers.cpp. Socket is
--              the receiving of fbmeshd/nl/NetlinkSocket.h and Csv parseCsvFlag of fbmeshd/common/Util.h.
--              A method is a function from the state to a result and a state; an exception, a failed
--              CHECK and a bad access to memory are results, and only a runtime_error is ever caught.
--              The state lists the messages that have been sent.
--   Prelude    shared names, Boolean tests, lists, association lists and integers.
--
-- How the code is read
--   A machine integer is a natural number with its wrap-around written out (u8, u32, u64). Times are
--   natural numbers, in milliseconds in Routing (mesh_path_expire is 60000) and in seconds in
--   Dampener. The handler of an announcement reads the clock at two moments t0 and t1, before and
--   after the entry of the originator is made; all later readings are taken to be t1. A timer is a
--   Boolean, and an event for its firing is possible only while it is scheduled. Unordered maps and
--   sets are lists, and no theorem depends on their order. An exception is a status beside the state
--   it leaves; an abort (CHECK) is none, but in Mesh both are results. No definition needs fuel:
--   each loop runs over a list or counts down. The loop of a sending counts the messages of one
--   sendmsg, at most 500 (max_iov_msg), and timeouts counts firings of the timer: as many as the
--   queue has batches empty it. Receiving in Mesh runs over the batches that will come; after the
--   last one it waits for ever (blocked).
--
-- Parameters, for code that is not in the repository
--   MacApi (folly::MacAddress), Serializer (the thrift serializer), blend (the floating-point mean of two airtimes and its rounding,
--   which lies between the two where IsMean is asked for), connect (one connection attempt), IpApi
--   (folly::IPAddress), NlSock (the kernel behind a netlink socket: any function from a route and its
--   state to a state and a result code), AddrSock (the kernel's addresses, which it keeps where
--   KeepsAddresses asks for it), less (the order of folly::IPAddress, strict and total where IsOrder
--   asks for it), Rtnl and Errno (constants of the kernel's headers), Wire and AddrWire
--   (macros and sizes of the kernel's headers, which are what IsWire and IsByteOrder say), AddrApi
--   (the bytes of addresses, which are read back where IsBytes asks for it), sendmsg (whether a call
--   succeeds). For Mesh: Driver (the wireless driver, rtnetlink and the system, any functions from a
--   message and a state to events and a state), Sizes and KeyLengths (constants of authsae's and the
--   kernel's headers), Parsers (stoi and folly::MacAddress), Authsae and PeerApi (authsae, which may
--   call the handler again), FrameApi (the layouts of frames and elements).
--
-- Not modelled: logging, the memory behind the array sup_rates, which the driver's rates can
-- overwrite, the process's other sockets (the sequence number belongs to the one socket), the files
-- under /proc, the wrappers of libnl objects (fbmeshd/nl), the copy
-- of the kernel's header nl80211-copy.h, the set-up of the socket for events, the parsing of the
-- kernel's messages and the messages of links and neighbours (fbmeshd/rnl/NetlinkRoute.cpp),
-- transports, the service and the statistics, and the threads: every call runs in its event loop,
-- one at a time. The wait for an answer is given what the future has when it ends.
pub mod Prelude
pub mod Dampener
pub mod Gateway
pub mod Routing
pub mod Metric
pub mod Rnl
pub mod Mesh
pub mod Netlink
pub mod SyncRoutes
