-- ===== src/StatusCode.antt =====
-- source/io/StatusCode.h and StatusCode.cpp: the status codes, in the order of the list, with their
-- numbers. The children have the conversion from libuv's codes and the laws.
pub mod Uv
pub mod Labels
pub mod Places
pub mod Laws
mod Tests
use tarm_io.Prelude.{ℕ, List, [], ◌∷◌}

pub data StatusCode : Type 0 where
  ok undefined file_not_open dir_not_open transport_init_failure : StatusCode
  tls_certificate_file_not_exist tls_private_key_file_not_exist : StatusCode
  tls_certificate_invalid tls_private_key_invalid : StatusCode
  tls_private_key_and_certificate_not_match not_connected : StatusCode
  operation_already_in_progress peer_not_found openssl_error : StatusCode
  argument_list_too_long permission_denied address_already_in_use : StatusCode
  address_not_available address_family_not_supported : StatusCode
  resource_temporarily_unavailable temporary_failure bad_ai_flags_value : StatusCode
  invalid_value_for_hints request_canceled permanent_failure : StatusCode
  ai_family_not_supported out_of_memory no_address_available : StatusCode
  unknown_node_or_service argument_buffer_overflow resolved_protocol_is_unknown : StatusCode
  service_not_available_for_socket_type socket_type_not_supported : StatusCode
  connection_already_in_progress bad_file_descriptor resource_busy_or_locked : StatusCode
  operation_canceled invalid_unicode_character software_caused_connection_abort : StatusCode
  connection_refused connection_reset_by_peer destination_address_required : StatusCode
  file_or_dir_already_exists bad_address_in_system_call_argument file_too_large : StatusCode
  host_is_unreachable interrupted_system_call invalid_argument io_error : StatusCode
  socket_is_already_connected illegal_operation_on_a_directory : StatusCode
  too_many_symbolic_links_encountered too_many_open_files message_too_long : StatusCode
  name_too_long network_is_down network_is_unreachable file_table_overflow : StatusCode
  no_buffer_space_available no_such_device no_such_file_or_directory : StatusCode
  not_enough_memory machine_is_not_on_the_network protocol_not_available : StatusCode
  no_space_left_on_device function_not_implemented socket_is_not_connected : StatusCode
  not_a_directory directory_not_empty socket_operation_on_non_socket : StatusCode
  operation_not_supported_on_socket operation_not_permitted : StatusCode
  operation_on_closed_socket protocol_error protocol_not_supported : StatusCode
  protocol_wrong_type_for_socket result_too_large read_only_file_system : StatusCode
  cannot_send_after_transport_endpoint_shutdown invalid_seek no_such_process : StatusCode
  connection_timed_out text_file_is_busy cross_device_link_not_permitted : StatusCode
  unknown_error end_of_file no_such_device_or_address too_many_links : StatusCode
  host_is_down remote_io_error inappropriate_ioctl_for_device : StatusCode
  inappropriate_file_type_or_format : StatusCode

-- The values of the enumeration.
abbrev pub number : StatusCode → ℕ
number ok = 0
number undefined = 1
number file_not_open = 2
number dir_not_open = 3
number transport_init_failure = 4
number tls_certificate_file_not_exist = 5
number tls_private_key_file_not_exist = 6
number tls_certificate_invalid = 7
number tls_private_key_invalid = 8
number tls_private_key_and_certificate_not_match = 9
number not_connected = 10
number operation_already_in_progress = 11
number peer_not_found = 12
number openssl_error = 13
number argument_list_too_long = 14
number permission_denied = 15
number address_already_in_use = 16
number address_not_available = 17
number address_family_not_supported = 18
number resource_temporarily_unavailable = 19
number temporary_failure = 20
number bad_ai_flags_value = 21
number invalid_value_for_hints = 22
number request_canceled = 23
number permanent_failure = 24
number ai_family_not_supported = 25
number out_of_memory = 26
number no_address_available = 27
number unknown_node_or_service = 28
number argument_buffer_overflow = 29
number resolved_protocol_is_unknown = 30
number service_not_available_for_socket_type = 31
number socket_type_not_supported = 32
number connection_already_in_progress = 33
number bad_file_descriptor = 34
number resource_busy_or_locked = 35
number operation_canceled = 36
number invalid_unicode_character = 37
number software_caused_connection_abort = 38
number connection_refused = 39
number connection_reset_by_peer = 40
number destination_address_required = 41
number file_or_dir_already_exists = 42
number bad_address_in_system_call_argument = 43
number file_too_large = 44
number host_is_unreachable = 45
number interrupted_system_call = 46
number invalid_argument = 47
number io_error = 48
number socket_is_already_connected = 49
number illegal_operation_on_a_directory = 50
number too_many_symbolic_links_encountered = 51
number too_many_open_files = 52
number message_too_long = 53
number name_too_long = 54
number network_is_down = 55
number network_is_unreachable = 56
number file_table_overflow = 57
number no_buffer_space_available = 58
number no_such_device = 59
number no_such_file_or_directory = 60
number not_enough_memory = 61
number machine_is_not_on_the_network = 62
number protocol_not_available = 63
number no_space_left_on_device = 64
number function_not_implemented = 65
number socket_is_not_connected = 66
number not_a_directory = 67
number directory_not_empty = 68
number socket_operation_on_non_socket = 69
number operation_not_supported_on_socket = 70
number operation_not_permitted = 71
number operation_on_closed_socket = 72
number protocol_error = 73
number protocol_not_supported = 74
number protocol_wrong_type_for_socket = 75
number result_too_large = 76
number read_only_file_system = 77
number cannot_send_after_transport_endpoint_shutdown = 78
number invalid_seek = 79
number no_such_process = 80
number connection_timed_out = 81
number text_file_is_busy = 82
number cross_device_link_not_permitted = 83
number unknown_error = 84
number end_of_file = 85
number no_such_device_or_address = 86
number too_many_links = 87
number host_is_down = 88
number remote_io_error = 89
number inappropriate_ioctl_for_device = 90
number inappropriate_file_type_or_format = 91

-- From `FIRST` to `LAST`.
abbrev pub all_status_codes : List StatusCode
all_status_codes =
    ok ∷ undefined ∷ file_not_open ∷ dir_not_open ∷ transport_init_failure
    ∷ tls_certificate_file_not_exist ∷ tls_private_key_file_not_exist ∷ tls_certificate_invalid
    ∷ tls_private_key_invalid ∷ tls_private_key_and_certificate_not_match ∷ not_connected
    ∷ operation_already_in_progress ∷ peer_not_found ∷ openssl_error ∷ argument_list_too_long
    ∷ permission_denied ∷ address_already_in_use ∷ address_not_available
    ∷ address_family_not_supported ∷ resource_temporarily_unavailable ∷ temporary_failure
    ∷ bad_ai_flags_value ∷ invalid_value_for_hints ∷ request_canceled ∷ permanent_failure
    ∷ ai_family_not_supported ∷ out_of_memory ∷ no_address_available ∷ unknown_node_or_service
    ∷ argument_buffer_overflow ∷ resolved_protocol_is_unknown
    ∷ service_not_available_for_socket_type ∷ socket_type_not_supported
    ∷ connection_already_in_progress ∷ bad_file_descriptor ∷ resource_busy_or_locked
    ∷ operation_canceled ∷ invalid_unicode_character ∷ software_caused_connection_abort
    ∷ connection_refused ∷ connection_reset_by_peer ∷ destination_address_required
    ∷ file_or_dir_already_exists ∷ bad_address_in_system_call_argument ∷ file_too_large
    ∷ host_is_unreachable ∷ interrupted_system_call ∷ invalid_argument ∷ io_error
    ∷ socket_is_already_connected ∷ illegal_operation_on_a_directory
    ∷ too_many_symbolic_links_encountered ∷ too_many_open_files ∷ message_too_long ∷ name_too_long
    ∷ network_is_down ∷ network_is_unreachable ∷ file_table_overflow ∷ no_buffer_space_available
    ∷ no_such_device ∷ no_such_file_or_directory ∷ not_enough_memory ∷ machine_is_not_on_the_network
    ∷ protocol_not_available ∷ no_space_left_on_device ∷ function_not_implemented
    ∷ socket_is_not_connected ∷ not_a_directory ∷ directory_not_empty
    ∷ socket_operation_on_non_socket ∷ operation_not_supported_on_socket ∷ operation_not_permitted
    ∷ operation_on_closed_socket ∷ protocol_error ∷ protocol_not_supported
    ∷ protocol_wrong_type_for_socket ∷ result_too_large ∷ read_only_file_system
    ∷ cannot_send_after_transport_endpoint_shutdown ∷ invalid_seek ∷ no_such_process
    ∷ connection_timed_out ∷ text_file_is_busy ∷ cross_device_link_not_permitted ∷ unknown_error
    ∷ end_of_file ∷ no_such_device_or_address ∷ too_many_links ∷ host_is_down ∷ remote_io_error
    ∷ inappropriate_ioctl_for_device ∷ inappropriate_file_type_or_format ∷ []
