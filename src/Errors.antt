-- ===== src/Errors.antt =====
-- The return codes of src/kernel/lpushSystemErrorDef.h that the modelled code uses.
-- An `int` return code is kept as its 32-bit pattern.
use linkedon_push.Common.{ℕ}

abbrev pub error_success : ℕ
error_success = 0

abbrev pub error_system_handshake : ℕ
error_system_handshake = 200

abbrev pub error_fmt : ℕ
error_fmt = 201

abbrev pub error_conn_hreatbeat_timeout : ℕ
error_conn_hreatbeat_timeout = 202

abbrev pub error_data_empty : ℕ
error_data_empty = 203

abbrev pub error_user_screte_no_exist : ℕ
error_user_screte_no_exist = 208

abbrev pub error_user_screte_mismatch : ℕ
error_user_screte_mismatch = 209

abbrev pub error_data_max : ℕ
error_data_max = 210

abbrev pub error_object_not_exist : ℕ
error_object_not_exist = 211

abbrev pub error_not_active : ℕ
error_not_active = 212

abbrev pub error_user_is_exist : ℕ
error_user_is_exist = 213

abbrev pub error_socket_read : ℕ
error_socket_read = 1007

abbrev pub error_socket_read_fully : ℕ
error_socket_read_fully = 1008

abbrev pub error_socket_write : ℕ
error_socket_write = 1009

abbrev pub error_socket_timeout : ℕ
error_socket_timeout = 1011

abbrev pub error_st_create_cycle_thread : ℕ
error_st_create_cycle_thread = 1017

abbrev pub error_reader_buffer_overflow : ℕ
error_reader_buffer_overflow = 1022

abbrev pub error_system_file_read : ℕ
error_system_file_read = 1044

abbrev pub error_socket_create : ℕ
error_socket_create = 1000

abbrev pub error_socket_setreuse : ℕ
error_socket_setreuse = 1001

abbrev pub error_socket_bind : ℕ
error_socket_bind = 1002

abbrev pub error_socket_listen : ℕ
error_socket_listen = 1003

abbrev pub error_socket_closed : ℕ
error_socket_closed = 1004

abbrev pub error_socket_connect : ℕ
error_socket_connect = 1012

abbrev pub error_st_set_epoll : ℕ
error_st_set_epoll = 1013

abbrev pub error_st_initialize : ℕ
error_st_initialize = 1014

abbrev pub error_st_open_socket : ℕ
error_st_open_socket = 1015

abbrev pub error_system_pid_acquire : ℕ
error_system_pid_acquire = 1034

abbrev pub error_system_pid_already_running : ℕ
error_system_pid_already_running = 1035

abbrev pub error_system_pid_lock : ℕ
error_system_pid_lock = 1036

abbrev pub error_system_pid_truncate_file : ℕ
error_system_pid_truncate_file = 1037

abbrev pub error_system_pid_write_file : ℕ
error_system_pid_write_file = 1038

abbrev pub error_system_pid_get_file_info : ℕ
error_system_pid_get_file_info = 1039

abbrev pub error_system_pid_set_file_info : ℕ
error_system_pid_set_file_info = 1040

abbrev pub error_system_create_pipe : ℕ
error_system_create_pipe = 1048

abbrev pub error_st_exceed_threads : ℕ
error_st_exceed_threads = 1051

abbrev pub error_mongodb_insert : ℕ
error_mongodb_insert = 204

abbrev pub error_mongodb_update : ℕ
error_mongodb_update = 205

abbrev pub error_mongodb_delete : ℕ
error_mongodb_delete = 206

-- `-2`, which `recvPushCallback` and `findPop` return.
abbrev pub minus_two : ℕ
minus_two = 4294967294

abbrev pub error_pthread_create : ℕ
error_pthread_create = 218
