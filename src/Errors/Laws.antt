-- ===== src/Errors/Laws.antt =====
-- Facts about the whole enumeration of error codes.
use libipc_old.Prelude.{
  ℕ, ◌≡◌, refl, sym, ap, ◌∙◌, ◌↔◌, ◌⊎◌, inl, inr, List, [], ◌∷◌, Option, none, some, ◌==◌,
  if◌then◌else◌, Bool, true, false,
}
use libipc_old.Errors.{ErrorCode, code_number}
use libipc_old.Errors.Table.{ipc_errors_get}

-- The codes without a row, read off the enumeration and the table.
has_no_row : ErrorCode → Bool
has_no_row ErrorCode.add_not_enough_memory = true
has_no_row ErrorCode.wait_event_poll = true
has_no_row _ = false

abbrev is_missing {ℓ} : {A : Type ℓ} → Option A → Bool
is_missing none = true
is_missing (some a) = false

is_missing_iff {ℓ} : {A : Type ℓ} (o : Option A) → (o ≡ none) ↔ (is_missing o ≡ true)
is_missing_iff none = (λ h. refl, λ h. refl)
is_missing_iff (some a) = (λ h. cc, λ h. cc)

is_missing-ipc_errors_get : (e : ErrorCode) → is_missing (ipc_errors_get e) ≡ has_no_row e
unfolding ipc_errors_get has_no_row
is_missing-ipc_errors_get ErrorCode.no_error = refl
is_missing-ipc_errors_get _ = refl

has_no_row_cases :
    (e : ErrorCode)
    → (has_no_row e ≡ true)
      ↔ ((e ≡ ErrorCode.add_not_enough_memory) ⊎ (e ≡ ErrorCode.wait_event_poll))
unfolding has_no_row
has_no_row_cases ErrorCode.add_not_enough_memory = (λ h. inl refl, λ h. refl)
has_no_row_cases ErrorCode.wait_event_poll = (λ h. inr refl, λ h. refl)
has_no_row_cases _ = (λ h. cc, elim [ inl p ↦ cc | inr p ↦ cc ])

-- The null pointer is returned for exactly two codes, which the table does not list.
pub ipc_errors_get-none_iff :
    (e : ErrorCode)
    → (ipc_errors_get e ≡ none)
      ↔ ((e ≡ ErrorCode.add_not_enough_memory) ⊎ (e ≡ ErrorCode.wait_event_poll))
ipc_errors_get-none_iff e = (
  λ h. (has_no_row_cases e).0 (sym (is_missing-ipc_errors_get e) ∙ (is_missing_iff _).0 h),
  λ h. (is_missing_iff _).1 (is_missing-ipc_errors_get e ∙ (has_no_row_cases e).1 h),
)

all_codes : List ErrorCode
all_codes =
    ErrorCode.no_error ∷ ErrorCode.handle_message_not_enough_memory ∷ ErrorCode.closed_recipient
    ∷ ErrorCode.service_path_no_path ∷ ErrorCode.service_path_no_service_name
    ∷ ErrorCode.server_init_no_environment_param ∷ ErrorCode.server_init_no_service_param
    ∷ ErrorCode.server_init_no_server_name_param ∷ ErrorCode.server_init_malloc
    ∷ ErrorCode.write_no_message_param ∷ ErrorCode.write_fd_not_enough_data
    ∷ ErrorCode.read_no_message_param ∷ ErrorCode.connection_no_service_name
    ∷ ErrorCode.connection_no_environment_param ∷ ErrorCode.accept_no_service_param
    ∷ ErrorCode.accept_no_client_param ∷ ErrorCode.handle_new_connection_no_cinfo_param
    ∷ ErrorCode.handle_new_connection_no_cinfos_param ∷ ErrorCode.wait_event_select
    ∷ ErrorCode.wait_event_no_clients_param ∷ ErrorCode.wait_event_no_event_param
    ∷ ErrorCode.handle_new_connection_malloc ∷ ErrorCode.add_empty_list
    ∷ ErrorCode.add_no_param_clients ∷ ErrorCode.add_no_param_client ∷ ErrorCode.add_malloc
    ∷ ErrorCode.add_fd_no_param_cinfos ∷ ErrorCode.add_fd_not_enough_memory
    ∷ ErrorCode.del_fd_no_param_cinfos ∷ ErrorCode.del_fd_emptied_list ∷ ErrorCode.del_fd_empty_list
    ∷ ErrorCode.del_fd_cannot_find_client ∷ ErrorCode.contact_ipcd_no_service_name_param
    ∷ ErrorCode.contact_ipcd_no_server_param ∷ ErrorCode.del_empty_list ∷ ErrorCode.del_emptied_list
    ∷ ErrorCode.del_cannot_find_client ∷ ErrorCode.del_no_clients_param
    ∷ ErrorCode.del_no_client_param ∷ ErrorCode.usock_send ∷ ErrorCode.usock_connect_socket
    ∷ ErrorCode.usock_connect_wrong_file_descriptor ∷ ErrorCode.usock_connect_empty_path
    ∷ ErrorCode.usock_connect_connect ∷ ErrorCode.usock_close ∷ ErrorCode.usock_remove_unlink
    ∷ ErrorCode.usock_remove_no_file ∷ ErrorCode.usock_init_empty_file_descriptor
    ∷ ErrorCode.usock_init_wrong_file_descriptor ∷ ErrorCode.usock_init_empty_path
    ∷ ErrorCode.usock_init_bind ∷ ErrorCode.usock_init_listen
    ∷ ErrorCode.usock_accept_path_file_descriptor ∷ ErrorCode.usock_accept
    ∷ ErrorCode.usock_recv_no_buffer ∷ ErrorCode.usock_recv_no_length ∷ ErrorCode.usock_recv
    ∷ ErrorCode.usock_recv_unrecognized_error ∷ ErrorCode.usock_recv_heap_allocation
    ∷ ErrorCode.usock_recv_message_size ∷ ErrorCode.receive_fd_no_param_fd
    ∷ ErrorCode.receive_fd_recvmsg ∷ ErrorCode.provide_fd_sendmsg
    ∷ ErrorCode.message_format_write_message_length ∷ ErrorCode.message_format_message_size
    ∷ ErrorCode.message_format_no_message_param ∷ ErrorCode.message_format_inconsistent_params
    ∷ ErrorCode.message_format_heap_allocation ∷ ErrorCode.message_format_write_empty_message
    ∷ ErrorCode.message_format_write_empty_msize ∷ ErrorCode.message_format_write_empty_buffer
    ∷ ErrorCode.message_format_read_empty_message ∷ ErrorCode.message_format_read_empty_buffer
    ∷ ErrorCode.message_format_read_param_message_size
    ∷ ErrorCode.message_format_read_read_message_size
    ∷ ErrorCode.message_format_read_message_too_long ∷ ErrorCode.message_empty_empty_message_list
    ∷ ErrorCode.mkdir_cannot_create_dir ∷ ErrorCode.mkdir_name_too_long
    ∷ ErrorCode.dir_setup_not_a_directory ∷ ErrorCode.dir_setup_directory_not_writable
    ∷ ErrorCode.directory_setup_path_param ∷ ErrorCode.server_init_not_enough_memory
    ∷ ErrorCode.connection_not_enough_memory ∷ ErrorCode.ctx_init_no_context_param
    ∷ ErrorCode.ctx_init_context_already_init ∷ ErrorCode.add_malloc_pollfd
    ∷ ErrorCode.add_message_to_send_empty_list ∷ ErrorCode.add_message_to_send_malloc
    ∷ ErrorCode.add_message_to_send_no_param_message
    ∷ ErrorCode.add_message_to_send_no_param_messages ∷ ErrorCode.connection_no_ctx
    ∷ ErrorCode.ctx_init_malloc_ctx ∷ ErrorCode.ctx_init_malloc_pollfd
    ∷ ErrorCode.contact_ipcd_no_fd_param ∷ ErrorCode.handle_new_connection_inconsistent_index
    ∷ ErrorCode.del_message_to_send_no_param_messages ∷ ErrorCode.message_del_index_error
    ∷ ErrorCode.message_del_empty_list ∷ ErrorCode.add_no_param_pollfd
    ∷ ErrorCode.write_fd_not_found ∷ ErrorCode.add_not_enough_memory ∷ ErrorCode.wait_event_poll
    ∷ ErrorCode.fd_switching_no_fd_record ∷ ErrorCode.close_all_no_ctx_param
    ∷ ErrorCode.close_no_ctx_param ∷ []

find_code : List ErrorCode → ℕ → Option ErrorCode
find_code [] n = none
find_code (e ∷ es) n = if code_number e == n then some e else find_code es n

find_code-code_number : (e : ErrorCode) → find_code all_codes (code_number e) ≡ some e
unfolding find_code all_codes code_number
find_code-code_number ErrorCode.no_error = refl
find_code-code_number _ = refl

-- Two enumerators with one number are one: no code of the library is used twice.
pub code_number_injective : (a b : ErrorCode) → code_number a ≡ code_number b → a ≡ b
code_number_injective a b h =
    cc (find_code-code_number a, find_code-code_number b, ap (find_code all_codes) h)
