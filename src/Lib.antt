-- ===== src/Lib.antt =====
-- webfuse: a file system whose content another machine provides over a websocket.
--
-- The service mounts a file system by FUSE. Each operation becomes a request to the provider, which
-- has connected to the service; the provider performs it on its own file system and answers with a
-- response. The parts modelled here, with the file that models each:
--
-- - src/webfuse/filesystem.cpp: Fs/Remote. An operation of the service writes a request, waits for the
--   reader of the response (`ws_server::perform` is the parameter `proxy`, where `none` stands for an
--   exception), and reads the result. An exception on the way makes the operation that of
--   src/webfuse/filesystem/empty_filesystem.cpp: Fs/Empty. The interface filesystem_i is the record
--   `FilesystemI` of Fs, on a state of the file system's own.
-- - src/webfuse/provider.cpp: Provider, Provider/Serve, Provider/Handlers. `on_message` reads a request,
--   performs it on a `FilesystemI`, and returns the response; an exception is `none`.
-- - src/webfuse/ws/messagewriter.cpp: Message/Writer. The vector of bytes with its `LWS_PRE` free bytes.
-- - src/webfuse/ws/messagereader.cpp: Message/Reader. The bytes and the position; a read past the end
--   throws, which is `none`.
-- - src/webfuse/request_type.cpp and response_type.cpp: Message/Types.
-- - src/webfuse/filesystem/status.cpp, openflags.cpp, accessmode.cpp, filemode.cpp: Flags/Status,
--   Flags/OpenFlags, Flags/AccessMode, Flags/FileMode, and Flags/RenameFlags for the writer's flags of
--   `rename`. Constants of the system headers are fields of the record `Platform`; what is documented
--   of them stands in hypotheses such as `HasLinuxErrnos`.
-- - Rpc composes both sides: `exchange` sends a request of the service to `on_message` and its response
--   back, so that a theorem compares an operation of the service with the same operation of the
--   provider's file system.
-- The connection between both is that of src/webfuse/ws/server_handler.cpp: Server, with the
-- operations of `server_handler` on its state and the effects they have on others,
-- Server/Authentication for the header of a connection, and Server/Events for
-- `ws_server_callback` of src/webfuse/ws/server.cpp and the calls of other threads as steps.
-- Server/Waiting is `ws_server::perform` with its timeout, and Server/Setup what libwebsockets is
-- asked for, and Server/Loop the thread. Server/Closed and Server/Reconnect are about the end of
-- a connection and a second one. Server/Tickets, Server/Safety and Server/Delivery are about runs
-- of steps. The copy of a header and the verdict of the authenticator are parameters.
-- The provider's end is the callback of src/webfuse/ws/client.cpp: Client, and Client/Connect for
-- the address it connects to, with src/webfuse/ws/url.cpp in Url, and Client/Setup for what
-- libwebsockets is asked for. Provider/Session is the object of the provider that passes to it.
-- System puts both ends together: a call through the handler, the client, the provider and back.
-- System/World has any number of calls on their way at once: its steps are the calls of threads
-- and the callbacks of both ends, in any order. There a message is lost by neither end of the
-- connection, and the ids do not start anew. `exchanged`, calls performed one by one, is what
-- System/Linear compares it with; System/Order, Flow and Live are the invariant for it. There a
-- connection may be made writable at any time. In System/Writable it is only where an end has asked
-- libwebsockets for it by `lws_callback_on_writable`; System/Asked says that an end with something to
-- write has asked, System/Weight counts what is on its way, and System/Quiet is about its end.
-- Both ends of the whole:
--
-- - src/webfuse/fuse.cpp: Fuse, the callbacks of FUSE over a `FilesystemI`, and Fuse/Operations,
--   their table; Fuse/Mounted puts them before the remote file system.
-- - src/provider_main.cpp: Local, the file system of the provider program as a `FilesystemI` over
--   the calls of its system, which are the record `Posix` of Local/Calls; Local/Contract,
--   Local/Listing, Local/Links and Local/Mounted are about it. Its options are ProviderMain, and
--   its `main` ProviderMain/Run, with its callbacks and signals ProviderMain/Program.
-- - src/webfuse/webfuse.cpp, ws/config.cpp and util/commandline_*.cpp: App, Config and Commandline.
--   Config/Reference reads the same arguments as a list.
-- - src/webfuse/util/authenticator.cpp: Authenticator, over the calls of `Process`; and
--   example/authenticator/pam/src/main.cpp: Pam, over PAM and libb64.
-- - src/webfuse/filesystem/filesystem_statistics.cpp: Fs/Statistics.
--
-- Owner is the pointer to a `detail` that ws_server, ws_client, fuse and provider own in the same way.
--
-- Numbers are natural numbers. An operation of the source on a machine integer writes its wrap-around
-- out, a signed integer that only carries bits is its bit pattern, and an `int32_t` result is an integer.
-- Texts are lists of bytes, and a `char const *` is the part before the first zero (Base/Text).
-- Loops run over lists and counts, but three run on fuel: that of `ws_config`, for which one more than the
-- number of arguments is enough, that of the provider's `readdir`, whose fuel `readdir_fuel` a theorem
-- about it assumes to be at least the number of entries that the system gives, and that of the provider's
-- `main`, for which one more than the services until a shutdown is enough.
--
-- Not modelled: `fuse_main`, what the contexts of libwebsockets do, moves of messages and
-- containers, which are the values themselves, and what is written to the terminal;
-- libwebsockets, libfuse, PAM, libb64 and the system are libraries. A callback of libwebsockets
-- for another protocol, which both ends ignore, is no event. Steps run one after the other: that
-- the queues are only used under their mutex is not proved. Where the source is undefined, the model
-- chooses: zeros stand for a `struct stat` and a `struct statvfs` that the source leaves uninitialised,
-- and a result of a read that is larger than the buffer makes no response. That `wait_for` of the future
-- ends with its timeout, and is an exception then, is built into Server/Waiting.
pub mod Base
pub mod Flags
pub mod Message
pub mod Fs
pub mod Provider
pub mod Url
pub mod Commandline
pub mod Config
pub mod Local
pub mod Fuse
pub mod Client
pub mod Server
pub mod Pam
pub mod Authenticator
pub mod App
pub mod ProviderMain
pub mod Owner
pub mod System
pub mod Rpc
pub mod Tests
