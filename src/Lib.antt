-- ===== src/Lib.antt =====
-- wallchanger: a program that keeps named collections of wallpapers, draws the next one, and has a
-- message protocol between a service and its client.
--
-- The parts, from the bottom up, with the paths of the repository:
--
-- - Base: the shared types. Numbers are native; a cast to 32 bits is written `% 2 ^ 32`. `find_first`,
--   `modify_first`, `erase_first` and `distance_first` are the uses of the iterator that
--   `std::ranges::find` returns. `Outcome` is a result or a fault: the dereference of an end iterator
--   or an index past the end, an empty range of random numbers, the value of an empty optional, a loop
--   that has not ended, a null pointer or freed memory that is read, a call of `std::terminate`.
-- - Cache: src/change_lib/wall_cache.hpp, a collection of items with a flag for changes. Item has the
--   states and the generated comparison, Compare that of whole collections, Merge the merge of two
--   ranges.
-- - CacheLib: src/change_lib/wall_cache_library.cpp, the library of collections, one function per
--   method, with the codes of wall_error.cpp in Error. Spec describes the changing calls over a map
--   from names to collections, with no order and no iterator; Refines and Calls relate the two.
--   Active is about the index and the name of the active collection, Modified about the flags that
--   decide on writing, Saved about json_helper.hpp, `serialize` and loading.
-- - Crc: src/change_lib/crc32.hpp, the table and the fold over bytes.
-- - PathTable: src/change_lib/path_table.cpp, the directories under the checksum of their names. A
--   path is its text, and its bytes are UTF-8.
-- - Manager: src/change_app/wall_manager.cpp, which joins a library, a path table and the history.
--   The file system is the record FileSystem, whose questions may throw, which ends the program
--   (Throws), the random numbers a list that `next_wall` draws from: its loop is recursion on this
--   list, and a list that ends first is the fault `still_running`. Taken is about what it takes. A
--   manager is safe (Invariant) when the entries of its path table stand under their checksums, the
--   names of its collections are distinct, and every location of an item is in the table.
-- - App: src/change_app/wall_app.cpp and wall_cmds.hpp, the command line. The options that boost has
--   parsed are the record OptionMap; what is printed of the collections is a list of values. Groups
--   has the constructor and the help, Values the types at which options are declared and read.
-- - Net: src/change_lib/net. Message is net_message.hpp over bytes, Queue connect_queue.hpp,
--   Connection connection.hpp, with each operation of asio in progress as a field and each completion
--   handler as a function; Steps is the relation of the steps, in any order, Reached about the states
--   reached. Reader is the other end, Server the loops of server_interface.hpp with the overridden
--   methods as parameters, Types message_type.hpp with the binary form of JSON as a
--   parameter, Client client_interface.hpp and src/change_app/change_client.hpp; Drain is about writes
--   that all end well. Waiting has the two threads at a queue, each step between two accesses to a
--   mutex or the condition variable, Handed what holds in every state and Wakeups who waits for whom;
--   Lifetime has the thread of a context, started and stopped, Pointers the null pointers of a server;
--   Startup is about connections and clients right after their constructors, Unfinished about
--   writes that fail.
-- - Folders: src/change_lib/known-folders.hpp, helpers.cpp and platform/linux/linux_known_folders.cpp,
--   over texts that are lists of bytes; Win32 is win32_known_folders.cpp. What the process asks the
--   system for is the record Environment. The table outlives a call that throws, so a call gives the
--   table and an outcome.
-- - Service: src/change_service, which the build leaves out. State is change_state.cpp over the
--   interface Library, which Current fills with the library of CacheLib; Server is change_server.hpp,
--   with the JSON library and what a call meets as the records Json and World. Accepting is how a
--   client is taken in, Running the loop over the messages, in batches as they come in between two
--   calls of `update`, Process the programs around it: service_main.cpp on Linux and
--   change_service.hpp.
-- - Windows: src/change_lib/platform/win32/service.cpp. A thread of a service is the list of the calls
--   and of the accesses to the shared status that it has still to do, Threads the relation of the
--   steps of both threads, in any order; the controls that may come are those that the status reported
--   last allows. `SetServiceStatus` takes the status in one step. Reports is about the masks that are
--   reported, Finishing about a request to stop. Helper is `service_helper`, with the
--   answers of Windows as arguments, SystemInfo the queries of helper.cpp, Wmi the object that asks
--   them, Random its random data, Text its texts and what is written into the event log.
-- - Background: src/change_lib/wall_background.cpp with the handlers of platform/win32 and
--   platform/linux, over what Windows answers; Image is `get_image_information`.
-- - Platform: common.cpp of platform/win32 and platform/linux, and the functions that open files, with
--   the integer types of src/change_lib/defines.hpp in Words.
-- - Log: src/log.hpp, the loggers by their names; Timer is src/scoped_timer.hpp.
--
-- The loops of the program are recursions on the list that they run over, so no fuel is needed but in
-- `next_wall`. A state after a fault is described only for the table of directories.
--
-- Not modelled: what the operating systems, asio, boost and spdlog do themselves, what is logged, JSON
-- text and files, and the signal and console handlers that set the flag that ends the loop.
pub mod App
pub mod Background
pub mod Base
pub mod Cache
pub mod CacheLib
pub mod Crc
pub mod Folders
pub mod Log
pub mod Manager
pub mod Net
pub mod PathTable
pub mod Platform
pub mod Service
pub mod Windows
