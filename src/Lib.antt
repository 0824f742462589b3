-- ===== src/Lib.antt =====
-- A model of the cloud backup server (C++): the table of the files in the backup with its cache of
-- first bytes, the persistence of the table, the handling of requests, uploads and downloads, the
-- connections and the messages between the threads, the configuration, the thread pool, the start of
-- the program as a daemon with its pipe, its socket and its set of epoll, and the functions on files,
-- paths and names.
--
-- Parts and files:
--   Common      numbers, Booleans, byte strings and options that the other files share.
--   Node        data_manager.hpp: BackupInfoNode, DataManagerNode and the store of nodes.
--   Lru         data_manager.hpp: DataManagerList, the doubly linked list behind the cache. Chain,
--               Writes and Moves are about its links; Spec says what it is without pointers; Touch
--               is MoveToHead, Push is PushToHead, Tail is RemoveTail, Remove is Remove, Lifetime the
--               constructor and the destructor.
--   DataManager data_manager.hpp: the manager. Table is _hash; Cache says what the cached bytes are
--               without pointers; Reads is GetFilePreContent, Writes PutFilePreContent; Insert,
--               Register (with Deregister) and Delete are the operations of these names.
--               Storage is the constructor with LoadFromFile and VerifyFileLegality, and
--               FileStorageThread.
--   Upload      HTTPconnection.hpp: process_upload_body. Find is about positions in a text, Inv says
--               what holds between the rounds, Head and Content are the two kinds of round, and
--               Loop puts them together. Search, Flow and Rounds are about a body that comes
--               in pieces, Dropped about a connection that ends (~HTTPMessageInfo).
--   Request     HTTPconnection.hpp: the callbacks of the parser of requests (Fields, Headers, Body) and
--               the answers to deletes and uploads. Feeding and Stream follow an upload through all
--               its pieces.
--   Download    HTTPconnection.hpp: the answer to a download and the task it binds. Ranges is about
--               the header Range, Promise about the answer.
--   Reply       HTTPconnection.hpp: the answers to the page, the list of files and an upload.
--   Connection  HTTPconnection.hpp: on_message_complete and the callbacks together. Tasks is handler
--               and sendFile; Steps says how the threads interleave at one connection; Orderly,
--               Handling and Reachable are about all runs; Delivery and Sending follow sendFile
--               through a file; Answers is about on_message_complete.
--   Sockets     the calls of the operating system and the interface of a connection that Server takes.
--   Server      cloud_backup_server.hpp: the table of connections, the events of the sockets and the
--               messages through the pipe. Messages is about the pipe, Connections and Runs about the
--               table, Gone about what it drops, Dispatch about a round of events, Loop is the
--               loop around it; Implementation gives the connections to it, and Wrapped the wrappers
--               of the system calls.
--   Config      config.hpp: ReadConfigFile, and GetInstance with its exits.
--   System      error.hpp and the system calls of the start: a process that goes on or exits. Rules is
--               about calls one after the other; Descriptors and NetLaws say what is documented of the
--               calls; Machine is a small system for the examples.
--   Daemon      util.hpp: Daemon (Detached, Ends) and SetNonBlock (NonBlock).
--   NetSocket   util.hpp: NetSocketUtil.
--   Epoll       util.hpp: EpollUtil.
--   Log         log.hpp: the two functions that set up the logger.
--   Json        util.hpp: JsonUtil, with the members that data_manager.hpp sets and reads. Laws says
--               what is documented of JsonCpp, Both is about writing and reading together,
--               Restart about the manager's file written and read through them.
--   Start       cloud_backup_server.hpp and cloud_backup_server.cc: the constructor, InitializeServer,
--               StartServer, the destructor and main. Initialized and Listening are about
--               what the server waits for then, Works and Returned about a start where no call
--               fails, Serving about the loop behind it, and Closed about its end.
--   ThreadPool  ThreadPool.hpp: push, try_push and ThreadRUN as steps of threads.
--   Path        util.hpp: is_path, path_transform, file_dir, GetFileName, check_filename. Names is
--               about GetFileName and check_filename, Url about URLDecode. Resolved has the
--               meaning of a path as a list of names, Standing and Transform are about path_transform.
--   FileUtil    util.hpp: the operations on files, over a record of system calls. Rewritten is about
--               a file that is emptied, written and read.
--
-- How they interact: the manager calls the list for its cache, the path functions to build the
-- path of a backup file, and the file operations on it. An upload registers and inserts its files
-- with the manager. A node is an address in one store that the table and the list share, so the
-- aliasing of the program is that of the model. The main thread hands the bytes of a socket to its
-- connection, whose tasks parse them, call the manager, and tell the main thread through the pipe
-- what to send and what to close. Server takes the connections as an interface
-- (Sockets.Clients) with laws (Server.Connections.Laws), which Server.Implementation fills. The
-- program starts with main_program, whose result is the server that the loop works on: Dispatcher
-- comes behind it (Start.Serving), over the calls that Server.Wrapped makes of the wrappers.
--
-- Conventions: a null dereference or another fault is `none`. In the start of the program an exit has
-- its status, and an exception that ends it is the status `terminated`; elsewhere both are `none`
-- too. A log message is no step. Sizes of type size_t wrap at 2 ^ 64. The operations of the
-- manager hold its lock throughout and are one step each. At a connection a task is one step up to
-- its critical section on the bytes that came in, this section is one, and the look at _sub_task
-- behind it is one. An unordered map is an association list
-- in which a key stands once, in the order of the first insertions; the program's order is not
-- specified. An operator new that fails throws in the program and is not modelled, but for
-- the array of events with a negative length. A calculation in long long that overflows, in the
-- range of a download, is `none`, as undefined. The last
-- character of an empty string, which the program reads where a configured directory is empty, is
-- taken to be no slash.
--
-- Bounds: the destructor's loop is given one round more than the list has nodes, and each round
-- leaves one node behind. path_transform and file_dir call one another, and are given a depth; the
-- constructor of FileUtil gives two, since file_dir is called on paths without dots only. The loop
-- over the body of an upload is given twice the length of the body and two rounds: each round that
-- goes on shortens the body or ends a file. Positions in a body are taken to fit an int. The digits
-- of a number n are made with n + 1 rounds. A part of a file from start to end is sent with
-- end - start + 2 rounds, since each sends a byte at least. Loops over the results of system calls
-- follow the list of these results.
--
-- Parameters: the file system (FileUtil.FileSystem), JsonCpp (DataManager.Storage.Json,
-- Reply.AnswerJson and Config.ConfigJson), the clock, getenv and getcwd (Path.Env), llhttp
-- (Connection.Llhttp), the calls on sockets, epoll and pipes (Sockets.Os), the system calls of the
-- start (System.System), the library of the logger (Log.LogSystem), and JsonCpp's values with their
-- reader and writer (Json.JsonCpp), from which Json.storage_json fills the manager's interface.
--
-- Not modelled: the header of llhttp, which is another project's, the macros of log.hpp that write a
-- message, and the manual tests in cloud_backup_server.cc that main does not call. The locks of single
-- nodes are not modelled either. A message to the pipe is taken to be written whole.
pub mod Common
pub mod Node
pub mod Path
pub mod FileUtil
pub mod Lru
pub mod DataManager
pub mod Config
pub mod Upload
pub mod Request
pub mod Download
pub mod Reply
pub mod Connection
pub mod Sockets
pub mod Server
pub mod ThreadPool
pub mod System
pub mod Daemon
pub mod NetSocket
pub mod Epoll
pub mod Log
pub mod Json
pub mod Start
