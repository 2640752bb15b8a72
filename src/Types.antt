-- ===== src/Types.antt =====
-- The structures and enumerations of src/ipc.h. An array behind a pointer is the list of its
-- cells, and the null pointer is the empty list: the code never allocates an array of no cells.
-- A payload is the optional list of the bytes that can be read through its pointer. A function
-- pointer is the optional number of a callback; what the callback does is a parameter.
use libipc_old.Prelude.{ℕ, ◌-◌, ℤ, pos, Bool, false, List, [], Option, none}

abbrev pub path_max : ℕ
path_max = 4096

abbrev pub ipc_header_size : ℕ
ipc_header_size = 6

abbrev pub ipc_base_size : ℕ
ipc_base_size = 2000000

-- `IPC_MAX_MESSAGE_SIZE`
abbrev pub max_message_size : ℕ
max_message_size = ipc_base_size - ipc_header_size

abbrev pub msg_type_server_close : ℕ
msg_type_server_close = 0

abbrev pub msg_type_err : ℕ
msg_type_err = 1

abbrev pub msg_type_data : ℕ
msg_type_data = 2

abbrev pub msg_type_network_lookup : ℕ
msg_type_network_lookup = 3

pub data EventType : Type 0 where
  not_set error extra_socket switch connection disconnection message lookup timer tx : EventType

-- What a callback of a switched descriptor answers.
pub data Ipccb : Type 0 where
  no_error fd_closing fd_error parsing_error ignore : Ipccb

pub data ConnectionType : Type 0 where
  ipc external server switched : ConnectionType

pub record ConnectionInfo : Type 0 where
  pub type : ConnectionType
  pub more_to_read : Bool
  pub spath : Option (List ℕ)

-- `struct pollfd` of poll(2), a Boolean for each flag that the code names.
pub record PollFd : Type 0 where
  pub fd : ℤ
  pub wants_in : Bool
  pub wants_out : Bool
  pub has_in : Bool
  pub has_out : Bool
  pub has_hup : Bool
  pub has_err : Bool
  pub has_nval : Bool

-- `type` and `user_type` are chars, `length` is a `uint32_t`.
pub record Message : Type 0 where
  pub type : ℕ
  pub user_type : ℕ
  pub fd : ℤ
  pub length : ℕ
  pub payload : Option (List ℕ)

pub record Messages : Type 0 where
  pub messages : List Message
  pub size : ℕ

pub record Switching : Type 0 where
  pub orig : ℤ
  pub dest : ℤ
  pub orig_in : Option ℕ
  pub orig_out : Option ℕ
  pub dest_in : Option ℕ
  pub dest_out : Option ℕ

pub record Switchings : Type 0 where
  pub collection : List Switching
  pub size : ℕ

pub record Ctx : Type 0 where
  pub cinfos : List ConnectionInfo
  pub pollfd : List PollFd
  pub size : ℕ
  pub tx : Messages
  pub switchdb : Switchings

pub record Event : Type 0 where
  pub type : EventType
  pub index : ℕ
  pub origin : ℤ
  pub m : Option Message

-- What `memset` to 0 leaves in each structure.
abbrev pub zero_cinfo : ConnectionInfo
zero_cinfo = record { type = ConnectionType.ipc; more_to_read = false; spath = none }

abbrev pub zero_pollfd : PollFd
zero_pollfd = record {
  fd = pos 0;
  wants_in = false;
  wants_out = false;
  has_in = false;
  has_out = false;
  has_hup = false;
  has_err = false;
  has_nval = false;
}

abbrev pub zero_message : Message
zero_message = record { type = 0; user_type = 0; fd = pos 0; length = 0; payload = none }

abbrev pub zero_messages : Messages
zero_messages = record { messages = []; size = 0 }

abbrev pub zero_ctx : Ctx
zero_ctx = record {
  cinfos = [];
  pollfd = [];
  size = 0;
  tx = zero_messages;
  switchdb = record { collection = []; size = 0 };
}

-- Which allocation of a library call is asked for; a call of the library is given the answers.
pub data Site : Type 0 where
  cinfos pollfd messages payload collection event_message server_path : Site

abbrev pub Alloc : Type 0
Alloc = Site → Bool
