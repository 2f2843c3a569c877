-- ===== src/Lib.antt =====
-- The rmw implementation for GurumDDS: messages, services, events, wait sets, the graph, names, QoS.
--
-- rmw_gurumdds lets ROS 2 nodes talk over GurumDDS. To publish, a ROS message is turned into CDR
-- bytes (its size is computed first by the same code, counting only); a subscription turns the
-- bytes back, possibly on a system of the other byte order. DDS listeners report status changes of
-- writers, readers and topics, which nodes read as events or are told of by callbacks. Clients and
-- services exchange requests and responses, which carry a sequence number and the guid of the
-- client, and a wait set tells which of a node's entities have become active. A graph records the nodes
-- and endpoints of this process and, from what DDS discovers, those of the others.
--
-- Base: numbers, tests, lists and results that the rest shares. Results stand for exceptions.
--
-- Cdr: rmw_gurumdds_cpp/src/cdr_buffer.cpp, rmw_gurumdds_cpp/src/cdr_deser_buffer.cpp and
-- rmw_gurumdds_cpp/include/rmw_gurumdds_cpp/cdr_serialization_buffer.inl.
--   Memory, Swap, Words: bytes and words in memory (memcpy), the byte swaps (bswap16 and so on).
--   Buffer: class CdrBuffer (roundup, advance), the constructors, and the common end of the
--     operators (append, fetch). Offsets are of type size_t and wrap at 2 ^ 64.
--   Write, Read: the operators << and >> and copy_arr.
--   Codec, Roundtrip: what it means that a writer and a reader fit together, and the round trips.
--
-- Message: message_serializer.inl, message_deserializer.inl and type_support_common.inl of
-- rmw_gurumdds_cpp/include/rmw_gurumdds_cpp, and rmw_gurumdds_cpp/src/type_support_common.cpp.
--   Types: what the converters read of the introspection type support, and message values. A
--     message value replaces the untyped memory that offset_ and get_function select from.
--   Serialize, Deserialize: MessageSerializer and MessageDeserializer for the C++ type support.
--     resize_function, which is generated code, is the parameter `accepts`: it takes a size or
--     throws. Recursion is on the message type, so no fuel is needed.
--   Convert: serialize_ros_to_cdr, deserialize_cdr_to_ros, get_serialized_size, allocate_message.
--   Typing, Roundtrip: the values of a message type and where they end, and the round trips.
--
-- Event: rmw_gurumdds_cpp/src/event_converter.cpp and rmw_gurumdds_cpp/src/event_info_common.cpp.
--   Converter, Policy: event types, status kinds and return codes; convert_qos_policy.
--   Notifier: what PublisherInfo and SubscriberInfo share: callbacks, guard conditions, the mask.
--   Publisher, Subscriber: their listener functions, set_on_new_event_callback and, in Status,
--     get_status and is_status_changed. What the getters of DDS return is an argument
--     (WriterStatus, ReaderStatus). The methods lock a mutex, so each is one step.
--   Topic: TopicEventListener. Its callback is two steps, with the table at each of them: it reads its
--     listener without a mutex.
--
-- Service: rmw_gurumdds_cpp/include/rmw_gurumdds_cpp/type_support_service.inl.
--   Numbers: the conversions of sequence numbers.
--   Serialize, Deserialize: sizes, the service header of the basic mapping, and the enhanced mapping.
--   Layout, Roundtrip, Room, Enhanced: the header as a codec, and what follows for both mappings.
--
-- Rpc: of rmw_gurumdds_cpp/src/rmw_client.cpp and rmw_gurumdds_cpp/src/rmw_service.cpp, the sending
-- and taking of requests and responses, with the guids of gid.inl (Samples).
--   Client, Server: rmw_send_request and rmw_take_response, rmw_take_request and rmw_send_response.
--     The samples that a reader has are a list, on which the loop of rmw_take_response recurs; what
--     the writing functions of DDS and malloc answer is a parameter (Dds).
--   Loop, Refused, Absent, Exchange: the loop, and what the four functions do together.
--
-- Wait: rmw_gurumdds_cpp/src/wait.cpp.
--   Attach: check_reattached, gather_event_conditions and the attaching of conditions. The wait set of
--     DDS is an interface, DdsWaitSet, whose laws are IsWaitSet in Exact.
--   Poll: wait_w_polling. Its second loop runs on fuel, one unit for each test of the clock, and the
--     clock and the conditions are functions of the number of the test; Polling shows which fuel is
--     enough.
--   Active: the loops that set to null what is not active; handle_active_event_conditions.
--   Run: wait, with its scope exit; what dds_WaitSet_wait answers is a parameter (Environment).
--
-- Graph: of rmw_gurumdds_cpp/src/graph_cache.cpp and rmw_gurumdds_cpp/src/rmw_context_impl.cpp, what
-- changes the graph. The graph is kept by rmw_dds_common: CommonContext is its interface, over any type
-- of states, and Laws says what the proofs rely on.
--   Local: nodes and endpoints of this process (on_publisher_created, on_service_created and so on).
--   Remote: participants and endpoints of other processes (on_participant_info, on_publication_changed
--     and so on), with guid_to_gid of gid.inl.
--   Rollback, Watch: what registering leaves in the graph, and what is left of endpoints that are gone.
--
-- Context: the other part of rmw_gurumdds_cpp/src/rmw_context_impl.cpp, with initialize and finalize of
-- rmw_gurumdds_cpp/src/graph_cache.cpp, and rmw_gurumdds_cpp/src/rmw_node.cpp. What DDS and the functions
-- that create and delete answer is an argument (Creation, Deletion, NodeAnswers).
--   Finalize, Initialize: finalize_participant and initialize_participant, with its scope exit.
--   Nodes: initialize_node and finalize_node, which count the nodes, rmw_create_node, rmw_destroy_node.
--   Retry, Ready, Bare, Reach, Invariant, Undo, Lost: what finalizing leaves, the invariant of
--     contexts with nodes, and what a failure leaves. The runs of Invariant destroy no more nodes than there are.
--
-- Names: rmw_gurumdds_cpp/src/namespace_prefix.cpp and, of rmw_gurumdds_cpp/src/demangle.cpp, the
-- functions on topic names (resolve_prefix, demangle_service_from_topic and so on).
--
-- Qos: rmw_gurumdds_cpp/src/qos.cpp: the policies and kinds, set_entity_qos_from_profile_generic
-- (Profile) and the conversions of durations (TimeLib holds what rmw and DDS declare of times).
--
-- Tests (for Cdr and Message), and the modules Tests of Event, Service, Rpc, Wait, Graph,
-- Context, Names and Qos have runs at concrete inputs.
--
-- Not modelled: the C type support (rosidl_runtime_c), type names and their demangling, the user
-- data of QoS, the listener thread of the graph, creation and destruction of publishers, subscriptions,
-- clients and services, initialization, and the other entry points of rmw, which check arguments and
-- call DDS. Overflow of the int32_t counters of events, undefined in C++, is left
-- out: they are integers without a bound.
pub mod Base
pub mod Cdr
pub mod Message
pub mod Event
pub mod Service
pub mod Rpc
pub mod Wait
pub mod Graph
pub mod Context
pub mod Names
pub mod Qos
pub mod Tests
