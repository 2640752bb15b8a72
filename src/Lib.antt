-- ===== src/Lib.antt =====
-- libipc, a C library for messages between processes over Unix sockets (src/*.c, src/ipc.h).
--
-- The program. A context (`struct ipc_ctx`) holds two arrays side by side, one cell of each for a
-- connection, the list of messages that wait for their descriptor, and the pairs of switched
-- descriptors. `ipc_add`, `ipc_del` and `ipc_write` change it; a message travels as a header of six
-- bytes and its payload.
--
-- The model, a file for each part; a function keeps its C name:
--   Prelude        shared names, native lists, array resizing, descriptors (C `int`s) as ℤ
--   Errors         `enum ipc_error_code` (src/ipc.h); Errors/Table the table of src/error.c
--   Types          the structures, enumerations and constants of src/ipc.h
--   Message        one message: wire format and filling (src/message.c)
--   Tx             the list of messages to send (src/message.c, and
--                  `ipc_remove_messages_for_fd` of src/communication.c)
--   Context        connections: src/context.c, and adding, deleting, finding, writing of
--                  src/communication.c
--   Switching      pairs of descriptors and their callbacks (src/network.c)
--   Env            system calls and the program's callbacks, as a record of functions
--   Sockets        src/usocket.c, ipc_read_fd and ipc_write_fd of src/communication.c
--   Closing        ipc_close, ipc_close_all, ipc_accept_add, ipc_read of src/communication.c
--   Relay          callbacks by default, fd_switching_read, fd_switching_write, and the passing
--                  of descriptors of src/network.c
--   Loop           ipc_wait_event of src/communication.c and its handlers
--   Paths          src/fs.c and src/service_path.c
--   Connecting     usock_connect and usock_init of src/usocket.c, ipc_server_init,
--                  ipc_contact_ipcd and the ipc_connection functions of src/communication.c
--   Board          what a program sees of a context up to the order of its arrays: the abstract
--                  specification of `ipc_add`, `ipc_del` and `ipc_write`
--   Sound          what keeps the calls from a fault: a sound context, and what is asked of memory,
--                  of the peers, of poll(2) and of the callbacks
--   System         a program as a sequence of calls on one context (the calls that its `Call` lists),
--                  and what it reaches
--   Programs       the service of examples/pongd.c, the clients of examples/pong.c and
--                  examples/pongspam.c, the TCP relay of examples/simple-tcpd.c
--   Printing       src/print.c, and print_hexa of src/utils.c
--   Tests          concrete inputs
-- Child modules hold the proofs.
--
-- Conventions. `struct ipc_error` is its code; the message text is not modelled. An array behind a
-- pointer is the list of its cells, NULL is the empty list: the code allocates no array of no
-- cells. `none` is a fault: an access outside an array or through NULL, a read of memory that was
-- never written, or the `exit` of `ipc_switching_add`. So is an error that `TEST_IPC_P` prints,
-- since its format reads an argument that is not there, and a poll(2) that fails or a context of
-- size 0 at the end of `ipc_add`, since the text of these errors is NULL: the theorems that exclude
-- a fault ask that the calls behind them succeed. Which allocations of a call succeed is an
-- argument (`Alloc`). A pointer argument that the code compares with NULL is an `Option`. Array
-- sizes are natural numbers, since an array of 2^64 cells does not exist, and so is the `uint32_t`
-- index of `ipc_messages_del`, for lists of fewer than 2^32 messages; a `uint32_t` length and the
-- `size_t` subtraction of `ipc_message_format_read` wrap as in C. Function pointers are numbers.
--
-- The state of the world outside is passed through every system call (Env). Loops recur on the
-- rounds left; only the receive loop of `usock_recv` has fuel, and `none` when it runs out, since a
-- peer can keep it running without end. Sound asks of a peer that it does not close in the middle of
-- a message, and of the fuel that it is more than the bytes of the largest message with its header,
-- which is enough then; so does Sockets/Ending. Sound asks also that close(2), and the removal of the
-- path of a server, succeed, that send(2) takes every byte, and that poll(2) answers.
--
-- Not modelled: error_message_format of src/utils.c, what the examples print, the other examples, the
-- tests, and the Zig version.
pub mod Prelude
pub mod Errors
pub mod Types
pub mod Message
pub mod Tx
pub mod Context
pub mod Switching
pub mod Env
pub mod Sockets
pub mod Closing
pub mod Relay
pub mod Loop
pub mod Paths
pub mod Connecting
pub mod Board
pub mod Sound
pub mod System
pub mod Programs
pub mod Printing
pub mod Tests
