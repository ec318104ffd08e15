-- ===== src/Lib.antt =====
-- The UNX511 course work: small Unix programs that talk over sockets, shared memory, semaphores,
-- signals and message queues. This library models the programs that carry logic of their own and
-- proves what makes them correct.
--
-- The programs, with the files that model them:
-- * ShmClients (Lab10/client.h, client1.cpp, client2.cpp, client3.cpp): three processes that pass
--   a message round in a shared segment. `client1`, `client2` and `client3` are the three `main`
--   functions as steps of a program counter, one access to shared memory at a time; `exchange` is
--   the message loop that they share, `join` the start of clients 1 and 2. `step` lets one client
--   move, `Reach` and `run` are the interleavings. ShmClients/Invariant holds the invariant and its
--   parts (Mutex, Order, Writes, Packets), Safety and Rounds the theorems.
-- * NetworkMonitor (Assignment2/networkMonitor.cpp): `Monitor` holds the globals,
--   `handle_client_message`, `connect`, `service`, `round`, `sig_handler`, `cleanup_sockets` and, in
--   NetworkMonitor/Main, `main` are the functions and the parts of `main`. System calls are effects
--   in a list; their results are arguments (`Input`, `Startup`). Clients is the `std::map` of
--   connections, Protocol the messages of both programs; Keeping, Names, Descriptors, Closing and
--   Replies hold the proofs.
-- * InterfaceMonitor (Assignment2/intfMonitor.cpp): the client side, in the same style; Messages
--   and Session are about what it says, Conversation is about both programs together.
-- * MessageQueues (Lab8/client.h, server.cpp, client1.cpp, client2.cpp, client3.cpp): a server
--   that sends messages on between three clients through a System V queue. Messages is the queue,
--   `server` in Dispatcher is the `main` of the server; `main_thread` and `recv_thread` in Threads
--   are the two threads of a client, with `main1` to `main3` and `recv_func1` to `recv_func3` at
--   their numbers; `step` lets one thread move and `Reach` collects what is posted and printed.
--   Locking is about the mutex of a client, Flow, Clean and Delivery about the order of messages,
--   Shutdown about the end of the server.
-- * Logging (Assignment3/Logger.cpp and LogServer.cpp): `log` is `Log`, `on_command` one datagram
--   of listen_for_commands with `stoi` and `contains` for the library calls, `level_command` what
--   the server sends, `dump_log_file` its dump. Logging/Levels holds their theorems. Logging/Menu is
--   main of LogServer.cpp: `menu_round` is a round of its loop over the characters of std::cin, with
--   `getline` and `ignore` as the library documents them; the datagrams that the receiving thread
--   writes meanwhile are in `Surroundings`. That inet_pton accepts 127.0.0.1, and that the file can
--   be opened, is taken for granted. Logging/Lifecycle is InitializeLog and ExitLog. Menu/Agreement
--   is about the level of server and client, Menu/AtEnd about the end of the input.
-- * Pipeline (Lab7/Lab7.cpp): `arguments` is the splitting of a command with strtok, `child` and
--   `parent` the descriptors of the two processes at execvp. `main` in Pipeline/Startup is main up
--   to the two calls of execvp, which end the processes or, where they fail, give status 1.
--   Pipeline/Arguments, Words and Ends are about the splitting and the descriptors.
-- * HardwareDevice (Lab5a/hardwareDevice.c and .h): a kernel module. `hardware_sim` is hardwareSim
--   as steps of its thread, a store to the buffer at a time; `register_device`, `unregister_device`,
--   `hardware_device_read` and `hardware_device_ioctl` are the functions of those names; `call` is
--   what can happen to a loaded device; a read copies its bytes one by one, with steps of the thread
--   between them. HardwareDevice/Clock is the abstract device, Displays and Letters show that the
--   module refines it, Halting and Unloading are about HALT and rmmod.
-- * ProcStatus (Lab1/memcheck.c): the scan of /proc/<pid>/status for VmRSS, which the workers of
--   Assignment1 have too, and `is_number`, `check_entry` and `memcheck`. A status file is the list
--   of the strings that fgets gives; `scan_int` is sscanf with %d as glibc has it: a long of 64 bits
--   that stops at its limits, and its low 32 bits. ProcStatus/Scans has the proofs.
-- * MemoryWorkers (Assignment1): workers that watch their memory and signal a parent.
--   MemoryWorkers/Files is dhsb_generate_binary_file (Part1, Part3, Part4/dhsb_logger.c) and
--   create_dummy_binary_file (Part2); Worker is worker_process.c of Part2 and Part3, which are
--   alike; LimitWorker is that of Part4; Waiting is the parent of Part2 and Counting that of Part3
--   (test_worker_main.c), with its count (Bounds), what it needs to return (Needs) and how it stays
--   in pause (Asleep); Parent is Part4/parent_main.c with the kernel's pending signals. What a
--   worker does is a list of kill, close and exit; of output, only the parent's is kept.
--   Parent/Startup is `main` of Part4/parent_main.c before its loops, with the default action of a
--   signal that has no handler yet (Startup/Flags and Early are about signals that come early, Whole
--   about the whole program), and EventLog (Part4/dhsb_logger.c) the calls of dhsb_log_event.
--   Programs is the `main` functions of Part1 and Part2.
-- * SocketServer (Lab9/server.cpp and client.cpp): a server with a receive thread for each client
--   and a queue that main prints. `receive_thread` and `main_move` are the steps of the threads and
--   of `main`, one access to the shared state at a time; `moves` is an interleaving of them with
--   SIGINT. What read and accept give is in the moves; a read that fills the buffer leaves no NUL,
--   so such a read carries the bytes that the memory has behind the buffer. SocketServer/Printing is
--   about the queue, Locking about its mutex, Farewell about the end, Client is client.cpp. A
--   pthread_create that fails, which the server does not look at, is not modelled.
-- * SignalMonitor (Lab5b/intfMonitor.cpp, sysmonExec.cpp): a monitor that SIGUSR1 starts and
--   SIGUSR2 stops. `signal_handler` and `main_round` are its handler and a round of its loops,
--   `stat_line` the line that sprintf makes, `system_monitor` what the parent does, and `main` in
--   Exec how it starts. SignalMonitor/Lines is about the buffer, Signals about a session, Together
--   about both monitors under their parent.
-- * Automobile (Assignment3/Automobile.cpp, TravelSimulator.cpp): `call` is a method of a car with
--   the message that it logs, or no result where sprintf writes behind the 64 bytes of its buffer,
--   `next_track` and `distances` are the track of a round. The arithmetic of double is a parameter
--   (`Double`), with the laws of signs that hold of it (`IsOrdered`), NaN included. `main` in
--   Automobile/Simulator is main between the start and the end of the logger: a run ends, goes on,
--   or overruns a buffer. Automobile/Messages is about the buffer of a message, Tank about the fuel,
--   Simulator/Rounds about the tracks.
-- * LocalSession (Lab6/server.cpp, client.cpp): a server that gives a client three commands.
--   `server` and `client` are the two `main` functions after accept and connect, as steps over two
--   streams; a move says how many bytes a read takes. The longest text has fewer than the 256 bytes
--   of the buffers. LocalSession/Phases is the session of whole reads, Splitting that of a partial
--   one, and Setup the two whole `main` functions as lists of calls, with those that fail and the
--   SIGPIPE of a write to a peer that is gone.
-- * ExamSemaphore (Exam/FinalExam1.c): `main` and `child` are the two sides of main as steps;
--   `perform_semaphore_operation` is performSemaphoreOperation; `moves` is an interleaving in which
--   each call may fail. Exclusion, Progress and Entries hold the theorems, Good the invariant of
--   runs without a failure.
-- * ExamClock (Exam/exam.c): `main_loop`, `process_input` and `main` are the functions of those
--   names; what curses does is a list of calls.
-- * Menus (Lab3/etherCtrl.cpp, Lab4/Lab4.cpp): two loops over std::cin. `ether_ctrl` and `screen`
--   are the two `main` functions, `round` and `turn` a round of their loops behind the read of the
--   choice; Prelude/Console is `>>` of an int and of a char. ioctl and inet_ntoa are parameters.
--   Menus/Ethernet/Scripts and Menus/Screen/Scripts are about what is typed, Menus/Ethernet/Hardware
--   about the text of an address.
-- * ProcessList (Lab2/Lab2_Dil.cpp, pidUtil.h): `main` over the functions of libPidUtil.a, which
--   are parameters.
--
-- Prelude holds what the programs share: Boolean tests, lists over native numbers, byte strings,
-- decimal printing, the places of a list (Slots), and std::cin (Console). The loops of the menus,
-- of exam.c and of TravelSimulator.cpp are given a number of rounds, or the rounds with and
-- without SIGINT, and have no result where they go on after them; Lab7 ends by itself.
--
-- Bounds and fuel. Loops of the programs that wait for events recur on the list of events, and
-- give no result when the events end before the loop does. The retries (10) and rounds (30) of
-- Lab10 are counted in the program counter; the bound of 699 steps is their sum. `decimal_fuel`
-- takes the number plus one as its fuel, and a number has fewer digits than that. Descriptors,
-- process numbers and counters are unbounded numbers; -1 is `none`.
--
-- Not modelled: text that is printed for a person only, except the statistics of intfMonitor;
-- DEBUG output, which is compiled out; memory safety of the C++ run time, but for the sizes of
-- buffers named above; failing calls of sigaction in Lab5b and Lab8; that msgget of a client of
-- Lab8 makes a new queue after a removal; Lab5a's generated module file.
pub mod Prelude
pub mod ShmClients
pub mod NetworkMonitor
pub mod InterfaceMonitor
pub mod MessageQueues
pub mod Logging
pub mod Pipeline
pub mod HardwareDevice
pub mod ProcStatus
pub mod MemoryWorkers
pub mod SocketServer
pub mod SignalMonitor
pub mod Automobile
pub mod LocalSession
pub mod ExamSemaphore
pub mod ExamClock
pub mod Menus
pub mod ProcessList
