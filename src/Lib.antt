-- ===== src/Lib.antt =====
-- Verification library of the C++ study programs of this repository.
--
-- The repository is a collection of small programs, each on its own; the files below model the
-- programs' own code. The copies of other projects (OpenSmbC, sigslot, jsonrpccxx, asio, httplib,
-- nlohmann json, loguru) are not modelled; what a program calls of them, of Qt or of ftxui is a
-- parameter of its model.
--
-- Shared: numbers, lists, options, signed integers.
-- ContextSwitch: cpp/cppcoro/context_switch.h, for ARM64 and x86-64, as lists of instructions
--   (`context_switch`) for an interpreter (`exec`, `run`) over registers and memory, and
--   `fake_stack` of cpp/cppcoro/02.coroutine_asm.cpp. Memory holds 64-bit words under the addresses
--   of their first bytes; overlaps that are no multiple of a word are excluded by hypotheses.
-- Coroutine: cpp/cppcoro/01.coroutine_ucontext.cpp. `Scheduler` is `g_sched`, with the printed
--   lines as `out`; `create`, `resume`, `yield`, `current`, `schedule`, `coroutine_entry` and
--   `fake_stack` have the names of the source. A coroutine's function is a value of `Func`, so it
--   comes to an end; functions that call `co::create` or `co::resume` themselves are not modelled
--   (an insertion during the loop of `schedule` may invalidate its iterator). The loop
--   of `schedule` takes fuel, one unit a round, and `Coroutine.Schedule.schedule_runs_all` says how much is enough.
-- CoroutineAsm: cpp/cppcoro/02.coroutine_asm.cpp, the library over `context_switch`. Its `Context` is
--   not the registers but what they amount to: zero, set by `fake_stack`, or saved in `co::yield`;
--   that a switch restores what was saved is `ContextSwitch`. `asm_schedule` is on the same fuel as
--   `schedule`.
-- TaskThread: cpp/ex/task_thread/task_thread.hpp, as a step relation (`Step`) between the worker,
--   the threads that post and the destructor. Times are numbers of milliseconds; the return value
--   of `PostTaskSync` and the arguments that are bound to a task are not modelled.
-- Connector: cpp/jsonrpc/json-rpc-cxx/examples/conn/asiotcpconnector.hpp. `Channel` is a TCP
--   connection with asio::read and asio::write, a parameter with laws; `Side` is the state that
--   AsioClientConnector and AsioServerConnector share, `Move` a step of its sending thread or of
--   its listener, `Link` two ends with the bytes between them, and `Network` (Connector/Clients)
--   the server with all its clients. What `HandleRequest` does is a parameter. The two writes of a message are one step, as are the two reads: two threads of one
--   end that write at once are not modelled, and neither are closed connections.
-- Screenshot: cpp/qt/ScreenShot. `Rects` is QRect, a parameter with its documented laws;
--   `SelectShotArea` has the operations of the class of that name, `ScreenShots` those of the
--   window: `event` is `press_event`, `release_event` and `move_event`; the handlers of the buttons
--   are `draw_back`, `choose` and `save_and_exit`. Coordinates are integers without bounds; what is
--   painted is the list of its items; how they are painted (drawcontent.cpp) is
--   Screenshot/Painter, with floating-point numbers, QLineF and the measuring of text as
--   parameters, and the picture of the desktop (Tool.h) is Screenshot/Desktop.
-- LogView: cpp/ftxui/demo.cpp, the part of the log that is shown, the log file, and (LogView/App)
--   the state with its buttons and the logging thread. The product of doubles in
--   `updateShowIndex` is a parameter.
-- PdfWriter: cpp/qt/pdfwriter, with the temporary files on a disk that is a function from the
--   number in a file's name to its pages. `export_pdf` is `main`; qpdf is a parameter, of
--   which the result asks that it puts the pages of its inputs together.
-- HttpConnector: cpphttplibconnector.hpp and inmemoryconnector.hpp of
--   cpp/jsonrpc/json-rpc-cxx/examples/conn. The network is a parameter (`post`), and so is
--   `HandleRequest`; of the listening thread the state that `std::thread` has is kept (`Listener`).
-- Warehouse: types.h, server.hpp and client.hpp of cpp/jsonrpc/json-rpc-cxx/examples/main.
--   `ServerHandle` has the operations of the class of that name over a std::map (`find`,
--   `assign`); the client's calls, `c_add_product` to `test`, go through the JSON of Warehouse.Json
--   and reach the server directly, since Connector and HttpConnector are about the way between.
--   Prices are values of any type. A reference to a temporary is `none`.
-- SmbShell: cpp/samba/client/OpenSmbC/examples/smb2-ex.cpp, with the functions' names. OpenSmbC is
--   `Smb2Context`, a parameter; the local files, the time zone and the texts of errors are
--   `Machine`. The loop of `prinf_file` and the one of `split_by_space` take fuel; one turn more than
--   the file has bytes, or the line characters, is enough. What is printed is kept as text, with
--   its formats.
-- SqlModel: cpp/qt/sqlmodel/widget.cpp. SQLite's table is `person`, whether it carries a statement
--   out is a parameter, and so is what a search selects; the view's layout is left out.
-- Semaphores: cpp/qt/SystemSemaphore, server.cpp and client.cpp, as one step relation.
-- Greeter: grpc/greeter_server.cc and grpc/greeter_client.cc, with the RPC between them; which calls
--   fail is a parameter. The loop of the client takes fuel, one unit a turn; one turn more than
--   there are words before "q" is enough.
-- ResourceWatcher: python/example/ResourceWatcher, widget.cpp and tool.h. QJsonDocument and
--   QString::arg are parameters; the thread's loop is `watch`, the window's contents are `load`.
-- ThreadTool: cpp/qt/thread, `ThreadTool::test1` of threadtool.h with its tasks, and the receiver in
--   InstanceSignal.h, as a step relation of the main thread and the threads of the pool. The workers
--   of ThreadCtl1.h with the event loops of their threads are ThreadTool/Workers, and any order of
--   their turns is a list of actions.
-- DbusService: cpp/qt/qdbus, the service of Server/dbusservice.h, and (DbusService/Clients) the
--   clients of Client with their reaction to a change of the power.
-- QtTcp: cpp/qt/qtcp. Each slot of tcpserver.hpp is a function on `TcpServer`, each of
--   tcpclient.hpp (QtTcp/Client) one on `TcpClient`; the JSON of a text, and the text of a JSON
--   object, are parameters. QtTcp/Answers lets the server read what the client wrote in batches.
--
-- Not modelled: the demonstrations cpp/ex/ansi_cout, cpp/ex/task_thread/main.cpp and main.cpp of
-- cpp/jsonrpc/json-rpc-cxx/examples, which print and sleep; cpp/qt/ScreenShot/main.cpp, which starts
-- Qt and asks Windows for a dump after a crash; python/pybind11, two classes that hand a number on
-- to pybind11; the layout of windows; the programs in Go, Python and shell.
pub mod Shared
pub mod ContextSwitch
pub mod Coroutine
pub mod TaskThread
pub mod Connector
pub mod HttpConnector
pub mod Warehouse
pub mod SmbShell
pub mod Screenshot
pub mod LogView
pub mod PdfWriter
pub mod QtTcp
pub mod CoroutineAsm
pub mod SqlModel
pub mod Semaphores
pub mod Greeter
pub mod ResourceWatcher
pub mod ThreadTool
pub mod DbusService
