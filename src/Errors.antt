-- ===== src/Errors.antt =====
-- The error codes of `enum ipc_error_code` (src/ipc.h), their numbers, and the test that the
-- error macros make.
pub mod Table
pub mod Laws
use libipc_old.Prelude.{ℕ, ◌≡◌, refl, Bool, true, false}

pub data ErrorCode : Type 0 where
  no_error : ErrorCode
  handle_message_not_enough_memory : ErrorCode
  closed_recipient : ErrorCode
  service_path_no_path : ErrorCode
  service_path_no_service_name : ErrorCode
  server_init_no_environment_param : ErrorCode
  server_init_no_service_param : ErrorCode
  server_init_no_server_name_param : ErrorCode
  server_init_malloc : ErrorCode
  write_no_message_param : ErrorCode
  write_fd_not_enough_data : ErrorCode
  read_no_message_param : ErrorCode
  connection_no_service_name : ErrorCode
  connection_no_environment_param : ErrorCode
  accept_no_service_param : ErrorCode
  accept_no_client_param : ErrorCode
  handle_new_connection_no_cinfo_param : ErrorCode
  handle_new_connection_no_cinfos_param : ErrorCode
  wait_event_select : ErrorCode
  wait_event_no_clients_param : ErrorCode
  wait_event_no_event_param : ErrorCode
  handle_new_connection_malloc : ErrorCode
  add_empty_list : ErrorCode
  add_no_param_clients : ErrorCode
  add_no_param_client : ErrorCode
  add_malloc : ErrorCode
  add_fd_no_param_cinfos : ErrorCode
  add_fd_not_enough_memory : ErrorCode
  del_fd_no_param_cinfos : ErrorCode
  del_fd_emptied_list : ErrorCode
  del_fd_empty_list : ErrorCode
  del_fd_cannot_find_client : ErrorCode
  contact_ipcd_no_service_name_param : ErrorCode
  contact_ipcd_no_server_param : ErrorCode
  del_empty_list : ErrorCode
  del_emptied_list : ErrorCode
  del_cannot_find_client : ErrorCode
  del_no_clients_param : ErrorCode
  del_no_client_param : ErrorCode
  usock_send : ErrorCode
  usock_connect_socket : ErrorCode
  usock_connect_wrong_file_descriptor : ErrorCode
  usock_connect_empty_path : ErrorCode
  usock_connect_connect : ErrorCode
  usock_close : ErrorCode
  usock_remove_unlink : ErrorCode
  usock_remove_no_file : ErrorCode
  usock_init_empty_file_descriptor : ErrorCode
  usock_init_wrong_file_descriptor : ErrorCode
  usock_init_empty_path : ErrorCode
  usock_init_bind : ErrorCode
  usock_init_listen : ErrorCode
  usock_accept_path_file_descriptor : ErrorCode
  usock_accept : ErrorCode
  usock_recv_no_buffer : ErrorCode
  usock_recv_no_length : ErrorCode
  usock_recv : ErrorCode
  usock_recv_unrecognized_error : ErrorCode
  usock_recv_heap_allocation : ErrorCode
  usock_recv_message_size : ErrorCode
  receive_fd_no_param_fd : ErrorCode
  receive_fd_recvmsg : ErrorCode
  provide_fd_sendmsg : ErrorCode
  message_format_write_message_length : ErrorCode
  message_format_message_size : ErrorCode
  message_format_no_message_param : ErrorCode
  message_format_inconsistent_params : ErrorCode
  message_format_heap_allocation : ErrorCode
  message_format_write_empty_message : ErrorCode
  message_format_write_empty_msize : ErrorCode
  message_format_write_empty_buffer : ErrorCode
  message_format_read_empty_message : ErrorCode
  message_format_read_empty_buffer : ErrorCode
  message_format_read_param_message_size : ErrorCode
  message_format_read_read_message_size : ErrorCode
  message_format_read_message_too_long : ErrorCode
  message_empty_empty_message_list : ErrorCode
  mkdir_cannot_create_dir : ErrorCode
  mkdir_name_too_long : ErrorCode
  dir_setup_not_a_directory : ErrorCode
  dir_setup_directory_not_writable : ErrorCode
  directory_setup_path_param : ErrorCode
  server_init_not_enough_memory : ErrorCode
  connection_not_enough_memory : ErrorCode
  ctx_init_no_context_param : ErrorCode
  ctx_init_context_already_init : ErrorCode
  add_malloc_pollfd : ErrorCode
  add_message_to_send_empty_list : ErrorCode
  add_message_to_send_malloc : ErrorCode
  add_message_to_send_no_param_message : ErrorCode
  add_message_to_send_no_param_messages : ErrorCode
  connection_no_ctx : ErrorCode
  ctx_init_malloc_ctx : ErrorCode
  ctx_init_malloc_pollfd : ErrorCode
  contact_ipcd_no_fd_param : ErrorCode
  handle_new_connection_inconsistent_index : ErrorCode
  del_message_to_send_no_param_messages : ErrorCode
  message_del_index_error : ErrorCode
  message_del_empty_list : ErrorCode
  add_no_param_pollfd : ErrorCode
  write_fd_not_found : ErrorCode
  add_not_enough_memory : ErrorCode
  wait_event_poll : ErrorCode
  fd_switching_no_fd_record : ErrorCode
  close_all_no_ctx_param : ErrorCode
  close_no_ctx_param : ErrorCode

-- `TEST_IPC_P` prints an error with a format for two strings and an argument for one of them: an error
-- that reaches it is a fault, which is `none` where the macro is used.

unfoldable pub is_error : ErrorCode → Bool
is_error no_error = false
is_error _ = true

unfoldable pub is_closed_recipient : ErrorCode → Bool
is_closed_recipient closed_recipient = true
is_closed_recipient _ = false

-- The value of each enumerator.
unfoldable pub code_number : ErrorCode → ℕ
code_number no_error = 0
code_number handle_message_not_enough_memory = 3
code_number closed_recipient = 4
code_number service_path_no_path = 5
code_number service_path_no_service_name = 6
code_number server_init_no_environment_param = 7
code_number server_init_no_service_param = 8
code_number server_init_no_server_name_param = 9
code_number server_init_malloc = 10
code_number write_no_message_param = 11
code_number write_fd_not_enough_data = 12
code_number read_no_message_param = 13
code_number connection_no_service_name = 15
code_number connection_no_environment_param = 16
code_number accept_no_service_param = 18
code_number accept_no_client_param = 19
code_number handle_new_connection_no_cinfo_param = 20
code_number handle_new_connection_no_cinfos_param = 21
code_number wait_event_select = 22
code_number wait_event_no_clients_param = 23
code_number wait_event_no_event_param = 24
code_number handle_new_connection_malloc = 25
code_number add_empty_list = 26
code_number add_no_param_clients = 27
code_number add_no_param_client = 28
code_number add_malloc = 29
code_number add_fd_no_param_cinfos = 30
code_number add_fd_not_enough_memory = 31
code_number del_fd_no_param_cinfos = 32
code_number del_fd_emptied_list = 33
code_number del_fd_empty_list = 34
code_number del_fd_cannot_find_client = 35
code_number contact_ipcd_no_service_name_param = 36
code_number contact_ipcd_no_server_param = 37
code_number del_empty_list = 38
code_number del_emptied_list = 39
code_number del_cannot_find_client = 40
code_number del_no_clients_param = 41
code_number del_no_client_param = 42
code_number usock_send = 43
code_number usock_connect_socket = 44
code_number usock_connect_wrong_file_descriptor = 45
code_number usock_connect_empty_path = 46
code_number usock_connect_connect = 47
code_number usock_close = 48
code_number usock_remove_unlink = 49
code_number usock_remove_no_file = 50
code_number usock_init_empty_file_descriptor = 51
code_number usock_init_wrong_file_descriptor = 52
code_number usock_init_empty_path = 53
code_number usock_init_bind = 54
code_number usock_init_listen = 55
code_number usock_accept_path_file_descriptor = 56
code_number usock_accept = 57
code_number usock_recv_no_buffer = 58
code_number usock_recv_no_length = 59
code_number usock_recv = 60
code_number usock_recv_unrecognized_error = 61
code_number usock_recv_heap_allocation = 62
code_number usock_recv_message_size = 63
code_number receive_fd_no_param_fd = 64
code_number receive_fd_recvmsg = 65
code_number provide_fd_sendmsg = 66
code_number message_format_write_message_length = 67
code_number message_format_message_size = 68
code_number message_format_no_message_param = 69
code_number message_format_inconsistent_params = 70
code_number message_format_heap_allocation = 71
code_number message_format_write_empty_message = 72
code_number message_format_write_empty_msize = 73
code_number message_format_write_empty_buffer = 74
code_number message_format_read_empty_message = 75
code_number message_format_read_empty_buffer = 76
code_number message_format_read_param_message_size = 77
code_number message_format_read_read_message_size = 78
code_number message_format_read_message_too_long = 79
code_number message_empty_empty_message_list = 80
code_number mkdir_cannot_create_dir = 81
code_number mkdir_name_too_long = 82
code_number dir_setup_not_a_directory = 83
code_number dir_setup_directory_not_writable = 84
code_number directory_setup_path_param = 85
code_number server_init_not_enough_memory = 86
code_number connection_not_enough_memory = 87
code_number ctx_init_no_context_param = 88
code_number ctx_init_context_already_init = 89
code_number add_malloc_pollfd = 90
code_number add_message_to_send_empty_list = 91
code_number add_message_to_send_malloc = 92
code_number add_message_to_send_no_param_message = 93
code_number add_message_to_send_no_param_messages = 94
code_number connection_no_ctx = 95
code_number ctx_init_malloc_ctx = 96
code_number ctx_init_malloc_pollfd = 97
code_number contact_ipcd_no_fd_param = 98
code_number handle_new_connection_inconsistent_index = 99
code_number del_message_to_send_no_param_messages = 100
code_number message_del_index_error = 101
code_number message_del_empty_list = 102
code_number add_no_param_pollfd = 103
code_number write_fd_not_found = 104
code_number add_not_enough_memory = 105
code_number wait_event_poll = 106
code_number fd_switching_no_fd_record = 107
code_number close_all_no_ctx_param = 108
code_number close_no_ctx_param = 109

unfoldable pub is_error-no_error : is_error no_error ≡ false
unfolding is_error
is_error-no_error = refl

unfoldable pub is_error-closed_recipient : is_error closed_recipient ≡ true
unfolding is_error
is_error-closed_recipient = refl

pub eq_no_error : (e : ErrorCode) → is_error e ≡ false → e ≡ no_error
unfolding is_error
eq_no_error no_error h = refl
eq_no_error _ h = cc
