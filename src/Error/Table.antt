-- ===== src/Error/Table.antt =====
-- Which status a text of source/io/Error.cpp is of.
use Prim.Native.String.{String}
use text.Mathlib.Text.{◌==◌ as is_same_text}
use tarm_io.Prelude.{
  ◌≡◌, refl, ◌⊎◌, inl, inr, Option, none, some, List, [], ◌∷◌, if◌then◌else◌, get_elem?,
}
use tarm_io.Error.Text.{string_of}
use tarm_io.StatusCode.{
  StatusCode, number, all_status_codes, ok, undefined, file_not_open, dir_not_open,
  transport_init_failure, tls_certificate_file_not_exist, tls_private_key_file_not_exist,
  tls_certificate_invalid, tls_private_key_invalid, tls_private_key_and_certificate_not_match,
  not_connected, operation_already_in_progress, peer_not_found, openssl_error,
  argument_list_too_long, permission_denied, address_already_in_use, address_not_available,
  address_family_not_supported, resource_temporarily_unavailable, temporary_failure,
  bad_ai_flags_value, invalid_value_for_hints, request_canceled, permanent_failure,
  ai_family_not_supported, out_of_memory, no_address_available, unknown_node_or_service,
  argument_buffer_overflow, resolved_protocol_is_unknown, service_not_available_for_socket_type,
  socket_type_not_supported, connection_already_in_progress, bad_file_descriptor,
  resource_busy_or_locked, operation_canceled, invalid_unicode_character,
  software_caused_connection_abort, connection_refused, connection_reset_by_peer,
  destination_address_required, file_or_dir_already_exists, bad_address_in_system_call_argument,
  file_too_large, host_is_unreachable, interrupted_system_call, invalid_argument, io_error,
  socket_is_already_connected, illegal_operation_on_a_directory,
  too_many_symbolic_links_encountered, too_many_open_files, message_too_long, name_too_long,
  network_is_down, network_is_unreachable, file_table_overflow, no_buffer_space_available,
  no_such_device, no_such_file_or_directory, not_enough_memory, machine_is_not_on_the_network,
  protocol_not_available, no_space_left_on_device, function_not_implemented,
  socket_is_not_connected, not_a_directory, directory_not_empty, socket_operation_on_non_socket,
  operation_not_supported_on_socket, operation_not_permitted, operation_on_closed_socket,
  protocol_error, protocol_not_supported, protocol_wrong_type_for_socket, result_too_large,
  read_only_file_system, cannot_send_after_transport_endpoint_shutdown, invalid_seek,
  no_such_process, connection_timed_out, text_file_is_busy, cross_device_link_not_permitted,
  unknown_error, end_of_file, no_such_device_or_address, too_many_links, host_is_down,
  remote_io_error, inappropriate_ioctl_for_device, inappropriate_file_type_or_format,
}

abbrev pub find_text : String → List StatusCode → Option StatusCode
find_text s [] = none
find_text s (c ∷ cs) = if is_same_text s (string_of c "") then some c else find_text s cs

pub find_text-string_of :
    (c : StatusCode) (info : String)
    → (c ≡ openssl_error)
      ⊎ ((c ≡ unknown_error) ⊎ (find_text (string_of c info) all_status_codes ≡ some c))
find_text-string_of ok info = inr (inr refl)
find_text-string_of undefined info = inr (inr refl)
find_text-string_of file_not_open info = inr (inr refl)
find_text-string_of dir_not_open info = inr (inr refl)
find_text-string_of transport_init_failure info = inr (inr refl)
find_text-string_of tls_certificate_file_not_exist info = inr (inr refl)
find_text-string_of tls_private_key_file_not_exist info = inr (inr refl)
find_text-string_of tls_certificate_invalid info = inr (inr refl)
find_text-string_of tls_private_key_invalid info = inr (inr refl)
find_text-string_of tls_private_key_and_certificate_not_match info = inr (inr refl)
find_text-string_of not_connected info = inr (inr refl)
find_text-string_of operation_already_in_progress info = inr (inr refl)
find_text-string_of peer_not_found info = inr (inr refl)
find_text-string_of openssl_error info = inl refl
find_text-string_of argument_list_too_long info = inr (inr refl)
find_text-string_of permission_denied info = inr (inr refl)
find_text-string_of address_already_in_use info = inr (inr refl)
find_text-string_of address_not_available info = inr (inr refl)
find_text-string_of address_family_not_supported info = inr (inr refl)
find_text-string_of resource_temporarily_unavailable info = inr (inr refl)
find_text-string_of temporary_failure info = inr (inr refl)
find_text-string_of bad_ai_flags_value info = inr (inr refl)
find_text-string_of invalid_value_for_hints info = inr (inr refl)
find_text-string_of request_canceled info = inr (inr refl)
find_text-string_of permanent_failure info = inr (inr refl)
find_text-string_of ai_family_not_supported info = inr (inr refl)
find_text-string_of out_of_memory info = inr (inr refl)
find_text-string_of no_address_available info = inr (inr refl)
find_text-string_of unknown_node_or_service info = inr (inr refl)
find_text-string_of argument_buffer_overflow info = inr (inr refl)
find_text-string_of resolved_protocol_is_unknown info = inr (inr refl)
find_text-string_of service_not_available_for_socket_type info = inr (inr refl)
find_text-string_of socket_type_not_supported info = inr (inr refl)
find_text-string_of connection_already_in_progress info = inr (inr refl)
find_text-string_of bad_file_descriptor info = inr (inr refl)
find_text-string_of resource_busy_or_locked info = inr (inr refl)
find_text-string_of operation_canceled info = inr (inr refl)
find_text-string_of invalid_unicode_character info = inr (inr refl)
find_text-string_of software_caused_connection_abort info = inr (inr refl)
find_text-string_of connection_refused info = inr (inr refl)
find_text-string_of connection_reset_by_peer info = inr (inr refl)
find_text-string_of destination_address_required info = inr (inr refl)
find_text-string_of file_or_dir_already_exists info = inr (inr refl)
find_text-string_of bad_address_in_system_call_argument info = inr (inr refl)
find_text-string_of file_too_large info = inr (inr refl)
find_text-string_of host_is_unreachable info = inr (inr refl)
find_text-string_of interrupted_system_call info = inr (inr refl)
find_text-string_of invalid_argument info = inr (inr refl)
find_text-string_of io_error info = inr (inr refl)
find_text-string_of socket_is_already_connected info = inr (inr refl)
find_text-string_of illegal_operation_on_a_directory info = inr (inr refl)
find_text-string_of too_many_symbolic_links_encountered info = inr (inr refl)
find_text-string_of too_many_open_files info = inr (inr refl)
find_text-string_of message_too_long info = inr (inr refl)
find_text-string_of name_too_long info = inr (inr refl)
find_text-string_of network_is_down info = inr (inr refl)
find_text-string_of network_is_unreachable info = inr (inr refl)
find_text-string_of file_table_overflow info = inr (inr refl)
find_text-string_of no_buffer_space_available info = inr (inr refl)
find_text-string_of no_such_device info = inr (inr refl)
find_text-string_of no_such_file_or_directory info = inr (inr refl)
find_text-string_of not_enough_memory info = inr (inr refl)
find_text-string_of machine_is_not_on_the_network info = inr (inr refl)
find_text-string_of protocol_not_available info = inr (inr refl)
find_text-string_of no_space_left_on_device info = inr (inr refl)
find_text-string_of function_not_implemented info = inr (inr refl)
find_text-string_of socket_is_not_connected info = inr (inr refl)
find_text-string_of not_a_directory info = inr (inr refl)
find_text-string_of directory_not_empty info = inr (inr refl)
find_text-string_of socket_operation_on_non_socket info = inr (inr refl)
find_text-string_of operation_not_supported_on_socket info = inr (inr refl)
find_text-string_of operation_not_permitted info = inr (inr refl)
find_text-string_of operation_on_closed_socket info = inr (inr refl)
find_text-string_of protocol_error info = inr (inr refl)
find_text-string_of protocol_not_supported info = inr (inr refl)
find_text-string_of protocol_wrong_type_for_socket info = inr (inr refl)
find_text-string_of result_too_large info = inr (inr refl)
find_text-string_of read_only_file_system info = inr (inr refl)
find_text-string_of cannot_send_after_transport_endpoint_shutdown info = inr (inr refl)
find_text-string_of invalid_seek info = inr (inr refl)
find_text-string_of no_such_process info = inr (inr refl)
find_text-string_of connection_timed_out info = inr (inr refl)
find_text-string_of text_file_is_busy info = inr (inr refl)
find_text-string_of cross_device_link_not_permitted info = inr (inr refl)
find_text-string_of unknown_error info = inr (inl refl)
find_text-string_of end_of_file info = inr (inr refl)
find_text-string_of no_such_device_or_address info = inr (inr refl)
find_text-string_of too_many_links info = inr (inr refl)
find_text-string_of host_is_down info = inr (inr refl)
find_text-string_of remote_io_error info = inr (inr refl)
find_text-string_of inappropriate_ioctl_for_device info = inr (inr refl)
find_text-string_of inappropriate_file_type_or_format info = inr (inr refl)

pub get_elem?-number : (c : StatusCode) → get_elem? all_status_codes (number c) ≡ some c
get_elem?-number ok = refl
get_elem?-number undefined = refl
get_elem?-number file_not_open = refl
get_elem?-number dir_not_open = refl
get_elem?-number transport_init_failure = refl
get_elem?-number tls_certificate_file_not_exist = refl
get_elem?-number tls_private_key_file_not_exist = refl
get_elem?-number tls_certificate_invalid = refl
get_elem?-number tls_private_key_invalid = refl
get_elem?-number tls_private_key_and_certificate_not_match = refl
get_elem?-number not_connected = refl
get_elem?-number operation_already_in_progress = refl
get_elem?-number peer_not_found = refl
get_elem?-number openssl_error = refl
get_elem?-number argument_list_too_long = refl
get_elem?-number permission_denied = refl
get_elem?-number address_already_in_use = refl
get_elem?-number address_not_available = refl
get_elem?-number address_family_not_supported = refl
get_elem?-number resource_temporarily_unavailable = refl
get_elem?-number temporary_failure = refl
get_elem?-number bad_ai_flags_value = refl
get_elem?-number invalid_value_for_hints = refl
get_elem?-number request_canceled = refl
get_elem?-number permanent_failure = refl
get_elem?-number ai_family_not_supported = refl
get_elem?-number out_of_memory = refl
get_elem?-number no_address_available = refl
get_elem?-number unknown_node_or_service = refl
get_elem?-number argument_buffer_overflow = refl
get_elem?-number resolved_protocol_is_unknown = refl
get_elem?-number service_not_available_for_socket_type = refl
get_elem?-number socket_type_not_supported = refl
get_elem?-number connection_already_in_progress = refl
get_elem?-number bad_file_descriptor = refl
get_elem?-number resource_busy_or_locked = refl
get_elem?-number operation_canceled = refl
get_elem?-number invalid_unicode_character = refl
get_elem?-number software_caused_connection_abort = refl
get_elem?-number connection_refused = refl
get_elem?-number connection_reset_by_peer = refl
get_elem?-number destination_address_required = refl
get_elem?-number file_or_dir_already_exists = refl
get_elem?-number bad_address_in_system_call_argument = refl
get_elem?-number file_too_large = refl
get_elem?-number host_is_unreachable = refl
get_elem?-number interrupted_system_call = refl
get_elem?-number invalid_argument = refl
get_elem?-number io_error = refl
get_elem?-number socket_is_already_connected = refl
get_elem?-number illegal_operation_on_a_directory = refl
get_elem?-number too_many_symbolic_links_encountered = refl
get_elem?-number too_many_open_files = refl
get_elem?-number message_too_long = refl
get_elem?-number name_too_long = refl
get_elem?-number network_is_down = refl
get_elem?-number network_is_unreachable = refl
get_elem?-number file_table_overflow = refl
get_elem?-number no_buffer_space_available = refl
get_elem?-number no_such_device = refl
get_elem?-number no_such_file_or_directory = refl
get_elem?-number not_enough_memory = refl
get_elem?-number machine_is_not_on_the_network = refl
get_elem?-number protocol_not_available = refl
get_elem?-number no_space_left_on_device = refl
get_elem?-number function_not_implemented = refl
get_elem?-number socket_is_not_connected = refl
get_elem?-number not_a_directory = refl
get_elem?-number directory_not_empty = refl
get_elem?-number socket_operation_on_non_socket = refl
get_elem?-number operation_not_supported_on_socket = refl
get_elem?-number operation_not_permitted = refl
get_elem?-number operation_on_closed_socket = refl
get_elem?-number protocol_error = refl
get_elem?-number protocol_not_supported = refl
get_elem?-number protocol_wrong_type_for_socket = refl
get_elem?-number result_too_large = refl
get_elem?-number read_only_file_system = refl
get_elem?-number cannot_send_after_transport_endpoint_shutdown = refl
get_elem?-number invalid_seek = refl
get_elem?-number no_such_process = refl
get_elem?-number connection_timed_out = refl
get_elem?-number text_file_is_busy = refl
get_elem?-number cross_device_link_not_permitted = refl
get_elem?-number unknown_error = refl
get_elem?-number end_of_file = refl
get_elem?-number no_such_device_or_address = refl
get_elem?-number too_many_links = refl
get_elem?-number host_is_down = refl
get_elem?-number remote_io_error = refl
get_elem?-number inappropriate_ioctl_for_device = refl
get_elem?-number inappropriate_file_type_or_format = refl
