-- ===== src/Lib.antt =====
-- A model of C code of MacPorts base, with theorems on it.
--
-- The parts
--
-- Filemap is base/src/pextlib1.0/filemap.c, the map from paths to port names that the Tcl code keeps
-- in a variable. Set, Get, Delete and List work on a tree whose nodes hold sorted arrays of subnodes;
-- Load and Save read and write it as a file, and FilemapCmd offers all of it as a Tcl command.
--   Filemap/Types       SHeader, SNode and SLeaf, and the error codes
--   Filemap/Path        the cursors over the path in Set, Get and Delete: parse_path
--   Filemap/Tree        Create, Set, Get, Delete, ListSubtree and List: create, set, get, delete,
--                       list_subtree, list; the search among the subnodes: locate
--   Filemap/Save        SaveNode and Save: save_node, save
--   Filemap/Load        LoadNode and Load: load_node, load
--   Filemap/Object      SFilemapObject, SetResultFromErrorCode, GetObjectFromVarName, and
--                       FilemapCmd with its subcommands: filemap_cmd
--   Filemap/Keys, Sorted, Locate, Get, Set, Delete, Listing
--                       proofs on the tree; Sorted has the invariant AreWellFormed
--   Filemap/Fields, Writers, RoundTrip, Database, Termination
--                       proofs on the file
--   Filemap/Commands, Persistence
--                       proofs on sequences of commands
--
-- Ctype is base/src/pextlib1.0/strcasecmp.c, which the tree calls, with the classes of <ctype.h> in
-- the "C" locale.
--
-- Vercomp is the comparison of versions, in base/src/pextlib1.0/vercomp.c (Vercomp/Loop: vercmp) and
-- again in base/src/cregistry/vercomp.c (Vercomp/Registry: vercmp), where the VERSION collation of the
-- registry calls it. Vercomp/Segments is one round of the loop, which both have.
--
-- Base32 is base/src/pextlib1.0/base32cmd.c: Base32EncodeCmd (Base32/Encode: base32_encode) and
-- Base32DecodeCmd (Base32/Decode: base32_decode); Base32/Groups and Base32/RoundTrip have the proofs.
--
-- Trace is trace mode. The server, base/src/pextlib1.0/tracelib.c, keeps the bounds of the sandbox and
-- the dependencies of a port and answers the messages of the traced processes; in each of those,
-- base/src/darwintracelib1.0/darwintrace.c fetches the bounds and checks every path against them.
--   Trace/Sandbox       TracelibSetSandboxCmd: set_sandbox
--   Trace/Server        TracelibSetDeps, TracelibEnableFence, process_line, send_file_map and dep_check
--   Trace/Wire          the messages, with their length in front: frame, receive
--   Trace/Rules         __darwintrace_filemap_iter and __darwintrace_pathbeginswith
--   Trace/Check         dependency_check, __darwintrace_log_op and __darwintrace_sandbox_check:
--                       sandbox_check
--   Trace/Buffer        normPath and pathComponents, and the loop over the components of a path
--   Trace/Lookup        __darwintrace_is_in_sandbox: is_in_sandbox
--   Trace/Peers         peerpid_list_enqueue, peerpid_list_dequeue, peerpid_list_walk
--   Trace/EventLoop     TracelibRunCmd from its first call of kevent(2) on: run_cmd
--   Trace/Env           store_env and restore_env of base/src/darwintracelib1.0/proc.c
--   Trace/Exec          check_interpreter and _dt_execve of proc.c, and the wrappers in access.c, stat.c,
--                       open.c, readlink.c, unlink.c, rmdir.c, rename.c and mkdir.c
--   Trace/Spelling, Decision, Below
--                       the bounds as porttrace.tcl spells them, and what they decide
--   Trace/Normal, Absolute, Slashes, Iterator, Total
--                       proofs on the normalisation of paths, and on termination
--   Trace/Names, Protocol, Session
--                       proofs on server and client together
--   Trace/Counts, Balance, Stop, Restoring, Script
--                       proofs on the event loop, on the environment and on scripts
--
-- Cregistry is the part of base/src/cregistry that builds queries, collects their rows and keeps track of
-- transactions, without the database: sqlite3_mprintf and what sqlite answers are arguments.
--   Cregistry/Growth    reg_strcat and reg_listcat of util.c
--   Cregistry/Query     reg_strategy_op of util.c, and reg_entry_search of entry.c: search_query
--   Cregistry/Objects   reg_all_objects of util.c
--   Cregistry/Transactions
--                       reg_detach, reg_start_read, reg_start_write, reg_commit and reg_rollback of
--                       registry.c
--   Cregistry/Appending, Searching, Bracketing
--                       proofs on them
--
-- Machista is base/src/machista1.0/libmachista.c, the parser of Mach-O files.
--   Machista/Types      the structures and codes of libmachista.h, and the numbers of the format
--   Machista/Reading    macho_read, macho_offset, the fields and strings of a file
--   Machista/Commands   the load commands in parse_macho
--   Machista/Parse      parse_macho
--   Machista/Handle     macho_parse_file and macho_strerror
--   Machista/Encode     the specification: what a Mach-O file with given commands looks like
--   Machista/Parts      the inputs that the parser meets in a universal file
--   Machista/Fields, CommandsRead, RoundTrip, Universal, Recursion, Inside, CommandsInside, Safety,
--   Caching             proofs
--
-- Daemondo is base/src/programs/daemondo/main.c, which starts a daemon and restarts it on events.
--   Daemondo/Types      the globals and the answers of the operating system
--   Daemondo/PidFile    CheckForValidPidFile, WaitForValidPidFile, CreatePidFile, DestroyPidFile and
--                       DeletePreexistingPidFile
--   Daemondo/Children   ProcessChildDeath, WaitChildDeath, CheckChildren and Exec
--   Daemondo/Control    Start, Stop and Restart
--   Daemondo/Loop       the restart timer, the callbacks and the core loop of MainLoop
--   Daemondo/Options    CollectCmdArgs, CollectArrayArgs and main
--   Daemondo/Preserving, Ending, Tracking, Following, Ended, Requests, Discovery
--                       proofs
--
-- How the code is modelled
--
-- A string is the list of its bytes, without the terminator. A tree is a value: the code never shares
-- a node. A command is a function from the state of the interpreter and the files to a reply and the
-- next state, and what each call of the operating system answers is an argument of it. Undefined
-- behaviour is a value of its own: none in Filemap/Tree and Filemap/Object, overrun in Filemap/Load,
-- Vercomp and Trace/Check, past_end in Trace/Rules, undefined in Trace/Server. xstrcasecmp and
-- xstrncasecmp are modelled by the sign of their results, which is all that the callers use. NAME_MAX
-- is 255.
--
-- In Trace, the file system that the client sees and the answers of the server are a record of functions,
-- World, and the queries of the registry are the record Registry. The arrays of the client and the
-- memory of the server start with any contents. The events of the kernel and the connections are lists,
-- and what process_line answers is a part of an event. Numbers on the socket have their low byte first.
--
-- In Machista, an address is a distance from the start of the mapped file, and a read past the end of
-- the mapping, or through a null pointer, is a result of its own. Pointers have 64 bits. Memory is the
-- number of allocations that succeed before the first that fails, for the parser gives up at that one.
-- The hash map is a record of its two operations. In Daemondo, what happens while the run loop watches
-- children, and the event that it handles, is a value with the answers that the code then meets, and a
-- list of actions records what daemondo does to other processes.
--
-- Fuel: load_node has the length of the file and one more as its fuel, since every node takes at
-- least the byte of its kind; vercmp has the length of the first version and one more, since every
-- round takes a character off it; check_bounds has the length of the bounds and one more, since every
-- entry takes bytes off them. The fuel of parse_macho is the depth of universal files within universal
-- files, which the code does not bound: two are enough for the files of the specification.
-- The client follows nine links, which is what the code does.
--
-- What is not modelled: the counting of the words of the Tcl commands, the descriptor of the lock of
-- an open filemap, more than one Tcl variable with a filemap and the reference count, allocation of
-- memory, and the length of fFilemapPath. A database whose root has a name, which Save does not
-- write, is not loaded in the model. The versions that the registry compares are followed by a null
-- character. Those that pextlib compares are C strings: the model of its vercmp says nothing of the
-- code on bytes with a null character. reg_attach is not modelled: create_tables and update_db, which
-- it calls, run transactions of their own on the connection, without regard to the bits of the
-- status. Of trace mode, threads, the set-up of sockets, posix_spawn, and the wrappers in close.c,
-- dup2.c and readdir.c are not modelled. Of libmachista, the version numbers as texts, the names of
-- the architectures and the release of memory are not modelled; of daemondo, the messages, the set-up
-- of the run loop and of its sources, and CFRunLoopStop, behind which the loops test the globals
-- anyway. The model of the loop tests them after a timer too, where the code does so only with the
-- next event if the process was ended by a stop command and could not be started again. The other C
-- code of base is not modelled: the statements on the tables of the registry, the bindings, and the
-- copies of other projects' code, hashmap.c of machista1.0 among them.
pub mod Prelude
pub mod Ctype
pub mod Filemap
pub mod Trace
pub mod Cregistry
pub mod Vercomp
pub mod Base32
pub mod Machista
pub mod Daemondo
