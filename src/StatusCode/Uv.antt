-- ===== src/StatusCode/Uv.antt =====
-- `convert_from_uv` of source/io/StatusCode.cpp. The numbers of libuv's codes are a parameter.
use tarm_io.Prelude.{if◌then◌else◌, ℤ, pos, is_equal, List, [], ◌∷◌}
use tarm_io.StatusCode.{
  StatusCode, undefined, argument_list_too_long, permission_denied, address_already_in_use,
  address_not_available, address_family_not_supported, resource_temporarily_unavailable,
  temporary_failure, bad_ai_flags_value, invalid_value_for_hints, request_canceled,
  permanent_failure, ai_family_not_supported, out_of_memory, no_address_available,
  unknown_node_or_service, argument_buffer_overflow, resolved_protocol_is_unknown,
  service_not_available_for_socket_type, socket_type_not_supported, connection_already_in_progress,
  bad_file_descriptor, resource_busy_or_locked, operation_canceled, invalid_unicode_character,
  software_caused_connection_abort, connection_refused, connection_reset_by_peer,
  destination_address_required, file_or_dir_already_exists, bad_address_in_system_call_argument,
  file_too_large, host_is_unreachable, interrupted_system_call, invalid_argument, io_error,
  socket_is_already_connected, illegal_operation_on_a_directory,
  too_many_symbolic_links_encountered, too_many_open_files, message_too_long, name_too_long,
  network_is_down, network_is_unreachable, file_table_overflow, no_buffer_space_available,
  no_such_device, no_such_file_or_directory, not_enough_memory, machine_is_not_on_the_network,
  protocol_not_available, no_space_left_on_device, function_not_implemented,
  socket_is_not_connected, not_a_directory, directory_not_empty, socket_operation_on_non_socket,
  operation_not_supported_on_socket, operation_not_permitted, operation_on_closed_socket,
  protocol_error, protocol_not_supported, protocol_wrong_type_for_socket, result_too_large,
  read_only_file_system, cannot_send_after_transport_endpoint_shutdown, invalid_seek,
  no_such_process, connection_timed_out, text_file_is_busy, cross_device_link_not_permitted,
  unknown_error, end_of_file, no_such_device_or_address, too_many_links, host_is_down,
  remote_io_error, inappropriate_ioctl_for_device, inappropriate_file_type_or_format,
}

-- The labels of the switch, apart from 0.
pub data UvCode : Type 0 where
  uv_e2big uv_eacces uv_eaddrinuse uv_eaddrnotavail uv_eafnosupport uv_eagain : UvCode
  uv_eai_addrfamily uv_eai_again uv_eai_badflags uv_eai_badhints : UvCode
  uv_eai_canceled uv_eai_fail uv_eai_family uv_eai_memory uv_eai_nodata : UvCode
  uv_eai_noname uv_eai_overflow uv_eai_protocol uv_eai_service uv_eai_socktype : UvCode
  uv_ealready uv_ebadf uv_ebusy uv_ecanceled uv_echarset uv_econnaborted : UvCode
  uv_econnrefused uv_econnreset uv_edestaddrreq uv_eexist uv_efault uv_efbig : UvCode
  uv_ehostunreach uv_eintr uv_einval uv_eio uv_eisconn uv_eisdir uv_eloop : UvCode
  uv_emfile uv_emsgsize uv_enametoolong uv_enetdown uv_enetunreach uv_enfile : UvCode
  uv_enobufs uv_enodev uv_enoent uv_enomem uv_enonet uv_enoprotoopt uv_enospc : UvCode
  uv_enosys uv_enotconn uv_enotdir uv_enotempty uv_enotsock uv_enotsup uv_eperm : UvCode
  uv_epipe uv_eproto uv_eprotonosupport uv_eprototype uv_erange uv_erofs : UvCode
  uv_eshutdown uv_espipe uv_esrch uv_etimedout uv_etxtbsy uv_exdev uv_unknown : UvCode
  uv_eof uv_enxio uv_emlink uv_ehostdown uv_eremoteio uv_enotty uv_eftype : UvCode

-- What the switch returns at a label.
abbrev pub status_of : UvCode → StatusCode
status_of uv_e2big = argument_list_too_long
status_of uv_eacces = permission_denied
status_of uv_eaddrinuse = address_already_in_use
status_of uv_eaddrnotavail = address_not_available
status_of uv_eafnosupport = address_family_not_supported
status_of uv_eagain = resource_temporarily_unavailable
status_of uv_eai_addrfamily = address_family_not_supported
status_of uv_eai_again = temporary_failure
status_of uv_eai_badflags = bad_ai_flags_value
status_of uv_eai_badhints = invalid_value_for_hints
status_of uv_eai_canceled = request_canceled
status_of uv_eai_fail = permanent_failure
status_of uv_eai_family = ai_family_not_supported
status_of uv_eai_memory = out_of_memory
status_of uv_eai_nodata = no_address_available
status_of uv_eai_noname = unknown_node_or_service
status_of uv_eai_overflow = argument_buffer_overflow
status_of uv_eai_protocol = resolved_protocol_is_unknown
status_of uv_eai_service = service_not_available_for_socket_type
status_of uv_eai_socktype = socket_type_not_supported
status_of uv_ealready = connection_already_in_progress
status_of uv_ebadf = bad_file_descriptor
status_of uv_ebusy = resource_busy_or_locked
status_of uv_ecanceled = operation_canceled
status_of uv_echarset = invalid_unicode_character
status_of uv_econnaborted = software_caused_connection_abort
status_of uv_econnrefused = connection_refused
status_of uv_econnreset = connection_reset_by_peer
status_of uv_edestaddrreq = destination_address_required
status_of uv_eexist = file_or_dir_already_exists
status_of uv_efault = bad_address_in_system_call_argument
status_of uv_efbig = file_too_large
status_of uv_ehostunreach = host_is_unreachable
status_of uv_eintr = interrupted_system_call
status_of uv_einval = invalid_argument
status_of uv_eio = io_error
status_of uv_eisconn = socket_is_already_connected
status_of uv_eisdir = illegal_operation_on_a_directory
status_of uv_eloop = too_many_symbolic_links_encountered
status_of uv_emfile = too_many_open_files
status_of uv_emsgsize = message_too_long
status_of uv_enametoolong = name_too_long
status_of uv_enetdown = network_is_down
status_of uv_enetunreach = network_is_unreachable
status_of uv_enfile = file_table_overflow
status_of uv_enobufs = no_buffer_space_available
status_of uv_enodev = no_such_device
status_of uv_enoent = no_such_file_or_directory
status_of uv_enomem = not_enough_memory
status_of uv_enonet = machine_is_not_on_the_network
status_of uv_enoprotoopt = protocol_not_available
status_of uv_enospc = no_space_left_on_device
status_of uv_enosys = function_not_implemented
status_of uv_enotconn = socket_is_not_connected
status_of uv_enotdir = not_a_directory
status_of uv_enotempty = directory_not_empty
status_of uv_enotsock = socket_operation_on_non_socket
status_of uv_enotsup = operation_not_supported_on_socket
status_of uv_eperm = operation_not_permitted
status_of uv_epipe = operation_on_closed_socket
status_of uv_eproto = protocol_error
status_of uv_eprotonosupport = protocol_not_supported
status_of uv_eprototype = protocol_wrong_type_for_socket
status_of uv_erange = result_too_large
status_of uv_erofs = read_only_file_system
status_of uv_eshutdown = cannot_send_after_transport_endpoint_shutdown
status_of uv_espipe = invalid_seek
status_of uv_esrch = no_such_process
status_of uv_etimedout = connection_timed_out
status_of uv_etxtbsy = text_file_is_busy
status_of uv_exdev = cross_device_link_not_permitted
status_of uv_unknown = unknown_error
status_of uv_eof = end_of_file
status_of uv_enxio = no_such_device_or_address
status_of uv_emlink = too_many_links
status_of uv_ehostdown = host_is_down
status_of uv_eremoteio = remote_io_error
status_of uv_enotty = inappropriate_ioctl_for_device
status_of uv_eftype = inappropriate_file_type_or_format

-- The labels in the order of the switch.
abbrev pub uv_codes : List UvCode
uv_codes =
    uv_e2big ∷ uv_eacces ∷ uv_eaddrinuse ∷ uv_eaddrnotavail ∷ uv_eafnosupport ∷ uv_eagain
    ∷ uv_eai_addrfamily ∷ uv_eai_again ∷ uv_eai_badflags ∷ uv_eai_badhints ∷ uv_eai_canceled
    ∷ uv_eai_fail ∷ uv_eai_family ∷ uv_eai_memory ∷ uv_eai_nodata ∷ uv_eai_noname ∷ uv_eai_overflow
    ∷ uv_eai_protocol ∷ uv_eai_service ∷ uv_eai_socktype ∷ uv_ealready ∷ uv_ebadf ∷ uv_ebusy
    ∷ uv_ecanceled ∷ uv_echarset ∷ uv_econnaborted ∷ uv_econnrefused ∷ uv_econnreset
    ∷ uv_edestaddrreq ∷ uv_eexist ∷ uv_efault ∷ uv_efbig ∷ uv_ehostunreach ∷ uv_eintr ∷ uv_einval
    ∷ uv_eio ∷ uv_eisconn ∷ uv_eisdir ∷ uv_eloop ∷ uv_emfile ∷ uv_emsgsize ∷ uv_enametoolong
    ∷ uv_enetdown ∷ uv_enetunreach ∷ uv_enfile ∷ uv_enobufs ∷ uv_enodev ∷ uv_enoent ∷ uv_enomem
    ∷ uv_enonet ∷ uv_enoprotoopt ∷ uv_enospc ∷ uv_enosys ∷ uv_enotconn ∷ uv_enotdir ∷ uv_enotempty
    ∷ uv_enotsock ∷ uv_enotsup ∷ uv_eperm ∷ uv_epipe ∷ uv_eproto ∷ uv_eprotonosupport
    ∷ uv_eprototype ∷ uv_erange ∷ uv_erofs ∷ uv_eshutdown ∷ uv_espipe ∷ uv_esrch ∷ uv_etimedout
    ∷ uv_etxtbsy ∷ uv_exdev ∷ uv_unknown ∷ uv_eof ∷ uv_enxio ∷ uv_emlink ∷ uv_ehostdown
    ∷ uv_eremoteio ∷ uv_enotty ∷ uv_eftype ∷ []

unfoldable pub switch : (UvCode → ℤ) → ℤ → List UvCode → StatusCode
switch uv code [] = undefined
switch uv code (c ∷ cs) = if is_equal code (uv c) then status_of c else switch uv code cs

unfoldable pub convert_from_uv : (UvCode → ℤ) → ℤ → StatusCode
convert_from_uv uv code = if is_equal code (pos 0) then StatusCode.ok else switch uv code uv_codes
