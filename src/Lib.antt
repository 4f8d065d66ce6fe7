-- ===== src/Lib.antt =====
-- The core of librcom, the library through which the nodes of rcom exchange messages: its buffers,
-- packets, frames, links, hubs and registries, translated from librcom/src and proved to keep what they
-- promise.
--
-- The parts, and how they meet:
--
-- * Circular models librcom/src/circular.c. The record Circular has the fields of circular_buffer_t;
--   write, read, data_available and space_available are the functions of these names with the prefix
--   circular_buffer_. Circular.Contents says which bytes a buffer holds, and Circular.Session runs
--   whole sequences of calls.
-- * Data models librcom/src/data.c and the two UDP calls of librcom/src/net.c. A Data is a data_t: the
--   length and a packet of three byte fields as they lie in memory. set_data, set_len, append_zero,
--   vprintf, seqnum, timestamp and the setters are the functions with the prefix data_; datagram
--   is the block that udp_socket_send gives to sendto, udp_read is udp_socket_read. Where the C would
--   write outside the payload a function is none.
-- * Net models tcp_socket_recv and tcp_socket_read of librcom/src/net.c. What recv returns is a list
--   of Recv: a piece of the stream, the end, a timeout or an error. A Reading takes such a list
--   and is none when the list runs out, where the C would wait.
-- * Messagelink models the frames of librcom/src/messagelink.c: frame_make, which a sender calls, and
--   messagelink_read_message (read_message) on the other side, over Net and a growing buffer.
-- * Link models the state of one link of that file: messagelink_send_close, _send_ping, _send_pong and
--   _send_text, the close handshake from both sides (owner_close, owner_close_oneway, remote_close),
--   and in Link.Loop the loop _messagelink_read (read), which answers control frames until a
--   message comes. Link.Blocks has the calls of tcp_socket_send that _send_text makes, with the
--   mask and the blocks of 1024 bytes. Link.Texts has the calls that format a text first, and Link.Connect has
--   client_messagelink_connect. In the rest of Link a frame is sent whole or not at all. What a link meets while it waits is a
--   list of Poll: silence, the timeout of five seconds, the end of the application, a failure or a
--   message.
-- * Util models the encodings and escapes of librcom/src/util.c. Base 64 is checked against a decoder written from
--   RFC 4648.
-- * Addr models librcom/src/addr.c. inet_aton, inet_ntoa, strtol and the decimal format are the record
--   Inet, with the behaviour that POSIX documents as its laws.
-- * Registry models librcom/src/registry.c: new_registry_entry, and the calls registry_insert, _delete,
--   _get, _select, _count and _update_addr, under their own names, on the list of the entries. Its
--   Types has the names of the types, Ids the checks on identifiers, topics and names, and Parse
--   registry_entry_parse and registry_entry_encode, with a JSON object as the texts of its keys, and
--   Listing the two functions on arrays of such objects. Registry.Remote is about what two registries
--   agree on.
-- * Rcregistry models librcom/src/rcregistry.c, the central registry: rcregistry_onmessage and the four
--   requests under their own names. A Message is what the JSON calls find in a request; an Outcome is
--   the entries that are left, the reply, and the broadcast.
-- * Proxy models librcom/src/proxy.c, the copy of the registry that each program keeps: in Proxy the
--   requests that it sends and the connections that it makes, in Proxy.Events the messages of the
--   central registry (proxy_onmessage), in Proxy.Endpoints what the program opens and closes. The calls
--   on endpoints and on the link to the central registry are a list of actions, and what they return
--   is a function of that list (Outside). Proxy.Requests and Proxy.Start put the proxy and the central
--   registry together: an Event of one, printed into a text without escapes and read as JSON (text_message), is a
--   message of the other.
-- * Datalink and Datahub model librcom/src/datalink.c and librcom/src/datahub.c over Data: the remote
--   address of a link, what it sends and reads, and the links of a hub, its broadcasts and its reads.
--   What sendto was given is a list, and whether it succeeds is a function of that list (Wire).
--   Datahub.Texts has the calls that format into the output of the hub first.
-- * Messagehub models the links of librcom/src/messagehub.c, each with the state that Link gives it:
--   messagehub_add_link, _remove_link, _delete_closed_links, _broadcast_text and _send_ping, and in
--   Messagehub.Texts the calls that format what they broadcast.
-- * Http models the list of headers and the callbacks of the HTTP parser that fill it, which
--   librcom/src/request.c, response.c and messagelink.c have alike. The parser itself is third-party
--   code: what it passes on is an argument.
-- * Handshake models the WebSocket handshake: the client's side of librcom/src/messagelink.c, and the
--   hub's side of librcom/src/messagehub.c and request.c. SHA-1, third-party code too, is an argument.
-- * Request models librcom/src/request.c: what the callbacks of the HTTP parser store (deliver), the end
--   of the headers with the URI (complete), and request_parse_html, which reads from the socket. A
--   Parser is a parameter: the calls that it makes for the bytes that it is fed.
-- * Response models librcom/src/response.c, http_status_string and http_send_response of
--   librcom/src/http.c; Response.Post has http_post of that file. The format of numbers is an argument.
-- * Service models librcom/src/service.c and librcom/src/export.c over Request and Response: the exports
--   (service_export, service_get_export, export_matches) and service_client_handle, from what recv
--   returns to all that the client is sent. Callbacks are an argument.
-- * Clients models the end of the thread of a client in librcom/src/service.c and
--   librcom/src/streamer.c against the deletion of finished clients: a step relation (Step), in which
--   each access to the socket or the list is a step of its own.
-- * Streamer models librcom/src/streamer.c and http_send_chunk over Circular: streamer_send_multipart,
--   and the loops that take the bytes out of a client's buffer and send them as chunks. Streamer.Server is
--   what its server does with a connection.
-- * Dump models librcom/src/dump.c: the head that dump_create writes and dump_open reads, and the packets
--   of dump_write_data and dump_read_data, over Data.
-- * Rlib has what the library takes from libr, which is not in this repository: membuf_t, rstreq and
--   list_t as records of operations and laws. Models take these as parameters, and an instance of each
--   shows that its laws can be met.
-- * Base has the notation and the lemmas on lists, bits and tests that the rest shares.
--
-- Bounds and fuel. Numbers are natural numbers; where the C wraps or cuts, this is written out: the
-- 8-, 16- and 64-bit fields of frames and packets, and the conversion of a long to an int in
-- addr_parse. The count that registry_count returns is taken not to overflow. The sizes of circular
-- buffers are taken to be below 2 ^ 30, so that no int overflows. The
-- host is little-endian. append_masked and read_payload run on the number of bytes as fuel, which is
-- enough, since each round takes one byte at least; read in Link.Loop runs on any fuel above the
-- number of polls, and read_more is structural on the list of what recv returns.
--
-- Not modelled: mutexes and, but for Clients, threads (each call is atomic), running out of memory,
-- logging, the allocation and release of objects, the HTTP parser, JSON but for its strings, and the files that the parts
-- above do not name. A callback is a count of its calls in Link, and an argument elsewhere. Where onpong
-- is not set, the payloads that would go to it are kept all the same.
pub mod Base
pub mod Rlib
pub mod Circular
pub mod Data
pub mod Net
pub mod Messagelink
pub mod Link
pub mod Util
pub mod Addr
pub mod Registry
pub mod Rcregistry
pub mod Proxy
pub mod Datalink
pub mod Datahub
pub mod Http
pub mod Handshake
pub mod Messagehub
pub mod Clients
pub mod Request
pub mod Response
pub mod Service
pub mod Streamer
pub mod Dump
