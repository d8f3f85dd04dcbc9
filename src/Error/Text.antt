-- ===== src/Error/Text.antt =====
-- `Error::string` of source/io/Error.cpp: the text of each status code. The assertion of the default
-- branch is not reached, there is a case for each code.
use Prim.Native.String.{String, ◌++◌ as append}
use tarm_io.StatusCode.{
  StatusCode, ok, undefined, file_not_open, dir_not_open, transport_init_failure,
  tls_certificate_file_not_exist, tls_private_key_file_not_exist, tls_certificate_invalid,
  tls_private_key_invalid, tls_private_key_and_certificate_not_match, not_connected,
  operation_already_in_progress, peer_not_found, openssl_error, argument_list_too_long,
  permission_denied, address_already_in_use, address_not_available, address_family_not_supported,
  resource_temporarily_unavailable, temporary_failure, bad_ai_flags_value, invalid_value_for_hints,
  request_canceled, permanent_failure, ai_family_not_supported, out_of_memory, no_address_available,
  unknown_node_or_service, argument_buffer_overflow, resolved_protocol_is_unknown,
  service_not_available_for_socket_type, socket_type_not_supported, connection_already_in_progress,
  bad_file_descriptor, resource_busy_or_locked, operation_canceled, invalid_unicode_character,
  software_caused_connection_abort, connection_refused, connection_reset_by_peer,
  destination_address_required, file_or_dir_already_exists, bad_address_in_system_call_argument,
  file_too_large, host_is_unreachable, interrupted_system_call, invalid_argument, io_error,
  socket_is_already_connected, illegal_operation_on_a_directory,
  too_many_symbolic_links_encountered, too_many_open_files, message_too_long, name_too_long,
  network_is_down, network_is_unreachable, file_table_overflow, no_buffer_space_available,
  no_such_device, no_such_file_or_directory, not_enough_memory, machine_is_not_on_the_network,
  protocol_not_available, no_space_left_on_device, function_not_implemented,
  socket_is_not_connected, not_a_directory, directory_not_empty, socket_operation_on_non_socket,
  operation_not_supported_on_socket, operation_not_permitted, operation_on_closed_socket,
  protocol_error, protocol_not_supported, protocol_wrong_type_for_socket, result_too_large,
  read_only_file_system, cannot_send_after_transport_endpoint_shutdown, invalid_seek,
  no_such_process, connection_timed_out, text_file_is_busy, cross_device_link_not_permitted,
  unknown_error, end_of_file, no_such_device_or_address, too_many_links, host_is_down,
  remote_io_error, inappropriate_ioctl_for_device, inappropriate_file_type_or_format,
}

abbrev pub string_of : StatusCode → String → String
string_of ok info = "No error. Status OK"
string_of undefined info = "Unknown error"
string_of file_not_open info = "File is not opened"
string_of dir_not_open info = "Directory is not opened"
string_of transport_init_failure info = "Failed to init underlying transport or protocol"
string_of tls_certificate_file_not_exist info = "Certificate error. File does not exist"
string_of tls_private_key_file_not_exist info = "Private key error. File does not exist"
string_of tls_certificate_invalid info = "Certificate error. Certificate is invalid or corrupted"
string_of tls_private_key_invalid info = "Private key error. Private key is invalid or corrupted"
string_of tls_private_key_and_certificate_not_match info =
    "Private key and certificate do not match"
string_of not_connected info = "Not connected"
string_of operation_already_in_progress info = "Operation already in progress"
string_of peer_not_found info = "Peer notfound"
string_of openssl_error info = append "Openssl error: " info
string_of argument_list_too_long info = "Argument list too long"
string_of permission_denied info = "Permission denied"
string_of address_already_in_use info = "Address already in use"
string_of address_not_available info = "Address not available"
string_of address_family_not_supported info = "Address family not supported"
string_of resource_temporarily_unavailable info = "Resource temporarily unavailable"
string_of temporary_failure info = "Temporary failure"
string_of bad_ai_flags_value info = "Bad ai_flags value"
string_of invalid_value_for_hints info = "Invalid value for hints"
string_of request_canceled info = "Request canceled"
string_of permanent_failure info = "Permanent failure"
string_of ai_family_not_supported info = "Ai_family not supported"
string_of out_of_memory info = "Out of memory"
string_of no_address_available info = "No address"
string_of unknown_node_or_service info = "Unknown node or service"
string_of argument_buffer_overflow info = "Argument buffer overflow"
string_of resolved_protocol_is_unknown info = "Resolved protocol is unknown"
string_of service_not_available_for_socket_type info = "Service not available for socket type"
string_of socket_type_not_supported info = "Socket type not supported"
string_of connection_already_in_progress info = "Connection already in progress"
string_of bad_file_descriptor info = "Bad file descriptor"
string_of resource_busy_or_locked info = "Resource busy or locked"
string_of operation_canceled info = "Operation canceled"
string_of invalid_unicode_character info = "Invalid Unicode character"
string_of software_caused_connection_abort info = "Software caused connection abort"
string_of connection_refused info = "Connection refused"
string_of connection_reset_by_peer info = "Connection reset by peer"
string_of destination_address_required info = "Destination address required"
string_of file_or_dir_already_exists info = "File already exists"
string_of bad_address_in_system_call_argument info = "Bad address in system call argument"
string_of file_too_large info = "File too large"
string_of host_is_unreachable info = "Host is unreachable"
string_of interrupted_system_call info = "Interrupted system call"
string_of invalid_argument info = "Invalid argument"
string_of io_error info = "I/o error"
string_of socket_is_already_connected info = "Socket is already connected"
string_of illegal_operation_on_a_directory info = "Illegal operation on a directory"
string_of too_many_symbolic_links_encountered info = "Too many symbolic links encountered"
string_of too_many_open_files info = "Too many open files"
string_of message_too_long info = "Message too long"
string_of name_too_long info = "Name too long"
string_of network_is_down info = "Network is down"
string_of network_is_unreachable info = "Network is unreachable"
string_of file_table_overflow info = "File table overflow"
string_of no_buffer_space_available info = "No buffer space available"
string_of no_such_device info = "No such device"
string_of no_such_file_or_directory info = "No such file or directory"
string_of not_enough_memory info = "Not enough memory"
string_of machine_is_not_on_the_network info = "Machine is not on the network"
string_of protocol_not_available info = "Protocol not available"
string_of no_space_left_on_device info = "No space left on device"
string_of function_not_implemented info = "Function not implemented"
string_of socket_is_not_connected info = "Socket is not connected"
string_of not_a_directory info = "Not a directory"
string_of directory_not_empty info = "Directory not empty"
string_of socket_operation_on_non_socket info = "Socket operation on non-socket"
string_of operation_not_supported_on_socket info = "Operation not supported on socket"
string_of operation_not_permitted info = "Operation not permitted"
string_of operation_on_closed_socket info = "Operation on closed socket"
string_of protocol_error info = "Protocol error"
string_of protocol_not_supported info = "Protocol not supported"
string_of protocol_wrong_type_for_socket info = "Protocol wrong type for socket"
string_of result_too_large info = "Result too large"
string_of read_only_file_system info = "Read-only file system"
string_of cannot_send_after_transport_endpoint_shutdown info =
    "Cannot send after transport endpoint shutdown"
string_of invalid_seek info = "Invalid seek"
string_of no_such_process info = "No such process"
string_of connection_timed_out info = "Connection timed out"
string_of text_file_is_busy info = "Text file is busy"
string_of cross_device_link_not_permitted info = "Cross-device link not permitted"
string_of unknown_error info = "Unknown error"
string_of end_of_file info = "End of file"
string_of no_such_device_or_address info = "No such device or address"
string_of too_many_links info = "Too many links"
string_of host_is_down info = "Host is down"
string_of remote_io_error info = "Remote I/O error"
string_of inappropriate_ioctl_for_device info = "Inappropriate ioctl for device"
string_of inappropriate_file_type_or_format info = "Inappropriate file type or format"
