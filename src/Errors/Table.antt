-- ===== src/Errors/Table.antt =====
-- The table of explanations of src/error.c, and its search.
use Prim.Native.String.{String}
use libipc_old.Prelude.{List, [], ◌∷◌, Option, none, some, ◌==◌, if◌then◌else◌}
use libipc_old.Errors.{ErrorCode, code_number}

-- `struct ipc_errors_verbose`.
pub record ErrorsVerbose : Type 0 where
  pub error_code : ErrorCode
  pub explanation_string : String

abbrev pub row : ErrorCode → String → ErrorsVerbose
row e s = record { error_code = e; explanation_string = s }

unfoldable pub ipc_errors_verbose : List ErrorsVerbose
ipc_errors_verbose =
    row ErrorCode.no_error "no error"
    ∷ row ErrorCode.closed_recipient "closed recipient"
    ∷ row ErrorCode.server_init_no_environment_param "ipc_server_init: no environment param"
    ∷ row ErrorCode.server_init_no_service_param "ipc_server_init: no service param"
    ∷ row ErrorCode.server_init_no_server_name_param "ipc_server_init: no server name param"
    ∷ row ErrorCode.server_init_malloc "ipc_server_init: error on malloc function"
    ∷ row ErrorCode.connection_no_service_name "ipc_connection: no service name parameter"
    ∷ row ErrorCode.connection_no_environment_param "ipc_connection: no environment param"
    ∷ row ErrorCode.usock_connect_connect "ipc_connection: error on the connect function"
    ∷ row ErrorCode.accept_no_service_param "ipc_accept: no service param"
    ∷ row ErrorCode.accept_no_client_param "ipc_accept: no client param"
    ∷ row ErrorCode.receive_fd_recvmsg "ipc_receive_fd: recvmsg function"
    ∷ row ErrorCode.receive_fd_no_param_fd "ipc_receive_fd: no fd param"
    ∷ row ErrorCode.provide_fd_sendmsg "ipc_provide_fd: sendmsg function"
    ∷ row ErrorCode.write_no_message_param "ipc_write: no message param"
    ∷ row ErrorCode.write_fd_not_enough_data "ipc_write: no enough data sent"
    ∷ row ErrorCode.read_no_message_param "ipc_read: no message param"
    ∷ row ErrorCode.handle_message_not_enough_memory "handle_message: not enough memory"
    ∷ row ErrorCode.handle_new_connection_no_cinfo_param "ipc_handle_new_connection: no cinfo param"
    ∷ row ErrorCode.handle_new_connection_no_cinfos_param
        "ipc_handle_new_connection: no cinfos param"
    ∷ row ErrorCode.wait_event_select "ipc_wait_event: error on the select function"
    ∷ row ErrorCode.wait_event_no_clients_param "ipc_wait_event: no clients param"
    ∷ row ErrorCode.wait_event_no_event_param "ipc_wait_event: no event param"
    ∷ row ErrorCode.contact_ipcd_no_service_name_param "ipc_contact_ipcd: no service name param"
    ∷ row ErrorCode.contact_ipcd_no_server_param "ipc_contact_ipcd: no server param"
    ∷ row ErrorCode.handle_new_connection_malloc
        "ipc_handle_new_connection: error on malloc function"
    ∷ row ErrorCode.add_malloc "ipc_add: first memory allocation failed"
    ∷ row ErrorCode.add_empty_list "ipc_add: empty list: realloc failed"
    ∷ row ErrorCode.add_no_param_clients "ipc_add: no param client list"
    ∷ row ErrorCode.add_no_param_client "ipc_add: no param client"
    ∷ row ErrorCode.add_fd_not_enough_memory "ipc_add_fd: not enough memory"
    ∷ row ErrorCode.add_fd_no_param_cinfos "ipc_add_fd: no cinfos param"
    ∷ row ErrorCode.del_fd_no_param_cinfos "ipc_del_fd: no cinfos param"
    ∷ row ErrorCode.del_fd_emptied_list "ipc_del_fd: empty list after realloc (memory problem)"
    ∷ row ErrorCode.del_fd_empty_list "ipc_del_fd: empty list"
    ∷ row ErrorCode.del_fd_cannot_find_client "ipc_del_fd: cannot find user"
    ∷ row ErrorCode.del_empty_list "ipc_del: empty list"
    ∷ row ErrorCode.del_emptied_list "ipc_del: cannot realloc"
    ∷ row ErrorCode.del_cannot_find_client "ipc_del: cannot find client"
    ∷ row ErrorCode.del_no_clients_param "ipc_del: no clients param"
    ∷ row ErrorCode.del_no_client_param "ipc_del: no client param"
    ∷ row ErrorCode.usock_send "usock_send: cannot send message"
    ∷ row ErrorCode.usock_connect_socket "usock_connect: error on socket function"
    ∷ row ErrorCode.usock_connect_wrong_file_descriptor "usock_connect: wrong file descriptor"
    ∷ row ErrorCode.usock_connect_empty_path "usock_connect: empty path"
    ∷ row ErrorCode.usock_close "usock_close: close function"
    ∷ row ErrorCode.usock_remove_unlink "usock_remove: unlink function"
    ∷ row ErrorCode.usock_remove_no_file "usock_remove: file not found"
    ∷ row ErrorCode.usock_init_empty_file_descriptor "usock_init: no file descriptor"
    ∷ row ErrorCode.usock_init_wrong_file_descriptor "usock_init: wrong file descriptor"
    ∷ row ErrorCode.usock_init_empty_path "usock_init: empty path"
    ∷ row ErrorCode.usock_init_bind "usock_init: error on bind function"
    ∷ row ErrorCode.usock_init_listen "usock_init: error on listen function"
    ∷ row ErrorCode.usock_accept_path_file_descriptor "ipc_usock_accept: no path file descriptor"
    ∷ row ErrorCode.usock_accept "ipc_usock_accept: error on accept function"
    ∷ row ErrorCode.usock_recv_no_buffer "ipc_usock_recv: no buffer in usock_recv"
    ∷ row ErrorCode.usock_recv_no_length "ipc_usock_recv: no length in usock_recv"
    ∷ row ErrorCode.usock_recv "ipc_usock_recv: cannot receive message in usock_recv"
    ∷ row ErrorCode.usock_recv_unrecognized_error
        "ipc_usock_recv: unrecognized error during recv(2)"
    ∷ row ErrorCode.usock_recv_message_size "ipc_usock_recv: message length > maximum allowed"
    ∷ row ErrorCode.usock_recv_heap_allocation "ipc_usock_recv: heap allocation failed"
    ∷ row ErrorCode.message_format_write_message_length
        "ipc_message_write: message is longer than accepted"
    ∷ row ErrorCode.message_format_no_message_param "ipc_message_format: no message param"
    ∷ row ErrorCode.message_format_inconsistent_params "ipc_message_format: inconsistent params"
    ∷ row ErrorCode.message_format_message_size "ipc_message_format: length param > maximum allowed"
    ∷ row ErrorCode.message_format_heap_allocation "ipc_message_format: heap allocation failed"
    ∷ row ErrorCode.message_format_write_empty_message "ipc_message_format_write: empty message"
    ∷ row ErrorCode.message_format_write_empty_msize "ipc_message_format_write: empty message size"
    ∷ row ErrorCode.message_format_write_empty_buffer "ipc_message_format_write: empty buffer"
    ∷ row ErrorCode.message_format_read_empty_message "ipc_message_format_read: empty message"
    ∷ row ErrorCode.message_format_read_empty_buffer "ipc_message_format_read: empty buffer"
    ∷ row ErrorCode.message_format_read_param_message_size
        "ipc_message_format_read: said buffer size (in parameter) > maximum allowed"
    ∷ row ErrorCode.message_format_read_read_message_size
        "ipc_message_format: read message size is not correct"
    ∷ row ErrorCode.message_format_read_message_too_long
        "ipc_message_format: read message size > maximum allowed"
    ∷ row ErrorCode.message_empty_empty_message_list "ipc_message_empty: empty message list"
    ∷ row ErrorCode.service_path_no_path "ipc_service_path: no path"
    ∷ row ErrorCode.service_path_no_service_name "ipc_service_path: no service name"
    ∷ row ErrorCode.mkdir_cannot_create_dir "mkdir_p_: cannot create a directory"
    ∷ row ErrorCode.mkdir_name_too_long "mkdir_p_: path parameter has a too long name"
    ∷ row ErrorCode.dir_setup_not_a_directory "directory_setup_: path cannot be created"
    ∷ row ErrorCode.dir_setup_directory_not_writable "directory_setup_: directory not writable"
    ∷ row ErrorCode.directory_setup_path_param "directory_setup_: no path param"
    ∷ row ErrorCode.server_init_not_enough_memory "IPC_ERROR_SERVER_INIT__NOT_ENOUGH_MEMORY"
    ∷ row ErrorCode.connection_not_enough_memory "IPC_ERROR_CONNECTION__NOT_ENOUGH_MEMORY"
    ∷ row ErrorCode.ctx_init_no_context_param "IPC_ERROR_CTX_INIT__NO_CONTEXT_PARAM"
    ∷ row ErrorCode.ctx_init_context_already_init "IPC_ERROR_CTX_INIT__CONTEXT_ALREADY_INIT"
    ∷ row ErrorCode.add_malloc_pollfd "IPC_ERROR_ADD__MALLOC_POLLFD"
    ∷ row ErrorCode.add_message_to_send_empty_list "IPC_ERROR_ADD_MESSAGE_TO_SEND__EMPTY_LIST"
    ∷ row ErrorCode.add_message_to_send_malloc "IPC_ERROR_ADD_MESSAGE_TO_SEND__MALLOC"
    ∷ row ErrorCode.add_message_to_send_no_param_message
        "IPC_ERROR_ADD_MESSAGE_TO_SEND__NO_PARAM_MESSAGE"
    ∷ row ErrorCode.add_message_to_send_no_param_messages
        "IPC_ERROR_ADD_MESSAGE_TO_SEND__NO_PARAM_MESSAGES"
    ∷ row ErrorCode.connection_no_ctx "IPC_ERROR_CONNECTION__NO_CTX"
    ∷ row ErrorCode.ctx_init_malloc_ctx "IPC_ERROR_CTX_INIT__MALLOC_CTX"
    ∷ row ErrorCode.ctx_init_malloc_pollfd "IPC_ERROR_CTX_INIT__MALLOC_POLLFD"
    ∷ row ErrorCode.contact_ipcd_no_fd_param "IPC_ERROR_CONTACT_IPCD__NO_FD_PARAM"
    ∷ row ErrorCode.handle_new_connection_inconsistent_index
        "IPC_ERROR_HANDLE_NEW_CONNECTION__INCONSISTENT_INDEX"
    ∷ row ErrorCode.del_message_to_send_no_param_messages
        "IPC_ERROR_DEL_MESSAGE_TO_SEND__NO_PARAM_MESSAGES"
    ∷ row ErrorCode.message_del_index_error "IPC_ERROR_MESSAGE_DEL__INDEX_ERROR"
    ∷ row ErrorCode.message_del_empty_list "IPC_ERROR_MESSAGE_DEL__EMPTY_LIST"
    ∷ row ErrorCode.add_no_param_pollfd "IPC_ERROR_ADD__NO_PARAM_POLLFD"
    ∷ row ErrorCode.write_fd_not_found "IPC_ERROR_WRITE__FD_NOT_FOUND"
    ∷ row ErrorCode.fd_switching_no_fd_record "IPC_ERROR_FD_SWITCHING__NO_FD_RECORD"
    ∷ row ErrorCode.close_all_no_ctx_param "IPC_ERROR_CLOSE_ALL__NO_CTX_PARAM"
    ∷ row ErrorCode.close_no_ctx_param "IPC_ERROR_CLOSE__NO_CTX_PARAM"
    ∷ []

-- The loop over the table: C compares the enumerators' numbers.
unfoldable pub find_explanation : List ErrorsVerbose → ErrorCode → Option String
find_explanation [] e = none
find_explanation (v ∷ table) e =
    if code_number v.error_code == code_number e
    then some v.explanation_string
    else find_explanation table e

-- `none` is the null pointer.
unfoldable pub ipc_errors_get : ErrorCode → Option String
unfolding ipc_errors_verbose find_explanation code_number
ipc_errors_get e = find_explanation ipc_errors_verbose e
