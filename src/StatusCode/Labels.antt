-- ===== src/StatusCode/Labels.antt =====
-- The statuses of the switch of source/io/StatusCode.cpp: which labels share one.
use tarm_io.Prelude.{Option, none, some, ◌≡◌, refl, ◌⊎◌, inl, inr, ◌==◌, false}
use tarm_io.StatusCode.{
  StatusCode, number, ok, undefined, file_not_open, dir_not_open, transport_init_failure,
  tls_certificate_file_not_exist, tls_private_key_file_not_exist, tls_certificate_invalid,
  tls_private_key_invalid, tls_private_key_and_certificate_not_match, not_connected,
  operation_already_in_progress, peer_not_found, openssl_error, argument_list_too_long,
  permission_denied, address_already_in_use, address_not_available, address_family_not_supported,
  resource_temporarily_unavailable, temporary_failure, bad_ai_flags_value, invalid_value_for_hints,
  request_canceled, permanent_failure, ai_family_not_supported, out_of_memory, no_address_available,
  unknown_node_or_service, argument_buffer_overflow, resolved_protocol_is_unknown,
  service_not_available_for_socket_type, socket_type_not_supported, connection_already_in_progress,
  bad_file_descriptor, resource_busy_or_locked, operation_canceled, invalid_unicode_character,
  software_caused_connection_abort, connection_refused, connection_reset_by_peer,
  destination_address_required, file_or_dir_already_exists, bad_address_in_system_call_argument,
  file_too_large, host_is_unreachable, interrupted_system_call, invalid_argument, io_error,
  socket_is_already_connected, illegal_operation_on_a_directory,
  too_many_symbolic_links_encountered, too_many_open_files, message_too_long, name_too_long,
  network_is_down, network_is_unreachable, file_table_overflow, no_buffer_space_available,
  no_such_device, no_such_file_or_directory, not_enough_memory, machine_is_not_on_the_network,
  protocol_not_available, no_space_left_on_device, function_not_implemented,
  socket_is_not_connected, not_a_directory, directory_not_empty, socket_operation_on_non_socket,
  operation_not_supported_on_socket, operation_not_permitted, operation_on_closed_socket,
  protocol_error, protocol_not_supported, protocol_wrong_type_for_socket, result_too_large,
  read_only_file_system, cannot_send_after_transport_endpoint_shutdown, invalid_seek,
  no_such_process, connection_timed_out, text_file_is_busy, cross_device_link_not_permitted,
  unknown_error, end_of_file, no_such_device_or_address, too_many_links, host_is_down,
  remote_io_error, inappropriate_ioctl_for_device, inappropriate_file_type_or_format,
}
use tarm_io.StatusCode.Uv.{
  UvCode, status_of, uv_e2big, uv_eacces, uv_eaddrinuse, uv_eaddrnotavail, uv_eafnosupport,
  uv_eagain, uv_eai_addrfamily, uv_eai_again, uv_eai_badflags, uv_eai_badhints, uv_eai_canceled,
  uv_eai_fail, uv_eai_family, uv_eai_memory, uv_eai_nodata, uv_eai_noname, uv_eai_overflow,
  uv_eai_protocol, uv_eai_service, uv_eai_socktype, uv_ealready, uv_ebadf, uv_ebusy, uv_ecanceled,
  uv_echarset, uv_econnaborted, uv_econnrefused, uv_econnreset, uv_edestaddrreq, uv_eexist,
  uv_efault, uv_efbig, uv_ehostunreach, uv_eintr, uv_einval, uv_eio, uv_eisconn, uv_eisdir,
  uv_eloop, uv_emfile, uv_emsgsize, uv_enametoolong, uv_enetdown, uv_enetunreach, uv_enfile,
  uv_enobufs, uv_enodev, uv_enoent, uv_enomem, uv_enonet, uv_enoprotoopt, uv_enospc, uv_enosys,
  uv_enotconn, uv_enotdir, uv_enotempty, uv_enotsock, uv_enotsup, uv_eperm, uv_epipe, uv_eproto,
  uv_eprotonosupport, uv_eprototype, uv_erange, uv_erofs, uv_eshutdown, uv_espipe, uv_esrch,
  uv_etimedout, uv_etxtbsy, uv_exdev, uv_unknown, uv_eof, uv_enxio, uv_emlink, uv_ehostdown,
  uv_eremoteio, uv_enotty, uv_eftype,
}

abbrev pub label_of : StatusCode → Option UvCode
label_of ok = none
label_of undefined = none
label_of file_not_open = none
label_of dir_not_open = none
label_of transport_init_failure = none
label_of tls_certificate_file_not_exist = none
label_of tls_private_key_file_not_exist = none
label_of tls_certificate_invalid = none
label_of tls_private_key_invalid = none
label_of tls_private_key_and_certificate_not_match = none
label_of not_connected = none
label_of operation_already_in_progress = none
label_of peer_not_found = none
label_of openssl_error = none
label_of argument_list_too_long = some uv_e2big
label_of permission_denied = some uv_eacces
label_of address_already_in_use = some uv_eaddrinuse
label_of address_not_available = some uv_eaddrnotavail
label_of address_family_not_supported = some uv_eafnosupport
label_of resource_temporarily_unavailable = some uv_eagain
label_of temporary_failure = some uv_eai_again
label_of bad_ai_flags_value = some uv_eai_badflags
label_of invalid_value_for_hints = some uv_eai_badhints
label_of request_canceled = some uv_eai_canceled
label_of permanent_failure = some uv_eai_fail
label_of ai_family_not_supported = some uv_eai_family
label_of out_of_memory = some uv_eai_memory
label_of no_address_available = some uv_eai_nodata
label_of unknown_node_or_service = some uv_eai_noname
label_of argument_buffer_overflow = some uv_eai_overflow
label_of resolved_protocol_is_unknown = some uv_eai_protocol
label_of service_not_available_for_socket_type = some uv_eai_service
label_of socket_type_not_supported = some uv_eai_socktype
label_of connection_already_in_progress = some uv_ealready
label_of bad_file_descriptor = some uv_ebadf
label_of resource_busy_or_locked = some uv_ebusy
label_of operation_canceled = some uv_ecanceled
label_of invalid_unicode_character = some uv_echarset
label_of software_caused_connection_abort = some uv_econnaborted
label_of connection_refused = some uv_econnrefused
label_of connection_reset_by_peer = some uv_econnreset
label_of destination_address_required = some uv_edestaddrreq
label_of file_or_dir_already_exists = some uv_eexist
label_of bad_address_in_system_call_argument = some uv_efault
label_of file_too_large = some uv_efbig
label_of host_is_unreachable = some uv_ehostunreach
label_of interrupted_system_call = some uv_eintr
label_of invalid_argument = some uv_einval
label_of io_error = some uv_eio
label_of socket_is_already_connected = some uv_eisconn
label_of illegal_operation_on_a_directory = some uv_eisdir
label_of too_many_symbolic_links_encountered = some uv_eloop
label_of too_many_open_files = some uv_emfile
label_of message_too_long = some uv_emsgsize
label_of name_too_long = some uv_enametoolong
label_of network_is_down = some uv_enetdown
label_of network_is_unreachable = some uv_enetunreach
label_of file_table_overflow = some uv_enfile
label_of no_buffer_space_available = some uv_enobufs
label_of no_such_device = some uv_enodev
label_of no_such_file_or_directory = some uv_enoent
label_of not_enough_memory = some uv_enomem
label_of machine_is_not_on_the_network = some uv_enonet
label_of protocol_not_available = some uv_enoprotoopt
label_of no_space_left_on_device = some uv_enospc
label_of function_not_implemented = some uv_enosys
label_of socket_is_not_connected = some uv_enotconn
label_of not_a_directory = some uv_enotdir
label_of directory_not_empty = some uv_enotempty
label_of socket_operation_on_non_socket = some uv_enotsock
label_of operation_not_supported_on_socket = some uv_enotsup
label_of operation_not_permitted = some uv_eperm
label_of operation_on_closed_socket = some uv_epipe
label_of protocol_error = some uv_eproto
label_of protocol_not_supported = some uv_eprotonosupport
label_of protocol_wrong_type_for_socket = some uv_eprototype
label_of result_too_large = some uv_erange
label_of read_only_file_system = some uv_erofs
label_of cannot_send_after_transport_endpoint_shutdown = some uv_eshutdown
label_of invalid_seek = some uv_espipe
label_of no_such_process = some uv_esrch
label_of connection_timed_out = some uv_etimedout
label_of text_file_is_busy = some uv_etxtbsy
label_of cross_device_link_not_permitted = some uv_exdev
label_of unknown_error = some uv_unknown
label_of end_of_file = some uv_eof
label_of no_such_device_or_address = some uv_enxio
label_of too_many_links = some uv_emlink
label_of host_is_down = some uv_ehostdown
label_of remote_io_error = some uv_eremoteio
label_of inappropriate_ioctl_for_device = some uv_enotty
label_of inappropriate_file_type_or_format = some uv_eftype

pub label_of-status_of :
    (c : UvCode)
    → ((c ≡ uv_eai_addrfamily) × (status_of c ≡ status_of uv_eafnosupport))
      ⊎ (label_of (status_of c) ≡ some c)
label_of-status_of uv_e2big = inr refl
label_of-status_of uv_eacces = inr refl
label_of-status_of uv_eaddrinuse = inr refl
label_of-status_of uv_eaddrnotavail = inr refl
label_of-status_of uv_eafnosupport = inr refl
label_of-status_of uv_eagain = inr refl
label_of-status_of uv_eai_addrfamily = inl (refl, refl)
label_of-status_of uv_eai_again = inr refl
label_of-status_of uv_eai_badflags = inr refl
label_of-status_of uv_eai_badhints = inr refl
label_of-status_of uv_eai_canceled = inr refl
label_of-status_of uv_eai_fail = inr refl
label_of-status_of uv_eai_family = inr refl
label_of-status_of uv_eai_memory = inr refl
label_of-status_of uv_eai_nodata = inr refl
label_of-status_of uv_eai_noname = inr refl
label_of-status_of uv_eai_overflow = inr refl
label_of-status_of uv_eai_protocol = inr refl
label_of-status_of uv_eai_service = inr refl
label_of-status_of uv_eai_socktype = inr refl
label_of-status_of uv_ealready = inr refl
label_of-status_of uv_ebadf = inr refl
label_of-status_of uv_ebusy = inr refl
label_of-status_of uv_ecanceled = inr refl
label_of-status_of uv_echarset = inr refl
label_of-status_of uv_econnaborted = inr refl
label_of-status_of uv_econnrefused = inr refl
label_of-status_of uv_econnreset = inr refl
label_of-status_of uv_edestaddrreq = inr refl
label_of-status_of uv_eexist = inr refl
label_of-status_of uv_efault = inr refl
label_of-status_of uv_efbig = inr refl
label_of-status_of uv_ehostunreach = inr refl
label_of-status_of uv_eintr = inr refl
label_of-status_of uv_einval = inr refl
label_of-status_of uv_eio = inr refl
label_of-status_of uv_eisconn = inr refl
label_of-status_of uv_eisdir = inr refl
label_of-status_of uv_eloop = inr refl
label_of-status_of uv_emfile = inr refl
label_of-status_of uv_emsgsize = inr refl
label_of-status_of uv_enametoolong = inr refl
label_of-status_of uv_enetdown = inr refl
label_of-status_of uv_enetunreach = inr refl
label_of-status_of uv_enfile = inr refl
label_of-status_of uv_enobufs = inr refl
label_of-status_of uv_enodev = inr refl
label_of-status_of uv_enoent = inr refl
label_of-status_of uv_enomem = inr refl
label_of-status_of uv_enonet = inr refl
label_of-status_of uv_enoprotoopt = inr refl
label_of-status_of uv_enospc = inr refl
label_of-status_of uv_enosys = inr refl
label_of-status_of uv_enotconn = inr refl
label_of-status_of uv_enotdir = inr refl
label_of-status_of uv_enotempty = inr refl
label_of-status_of uv_enotsock = inr refl
label_of-status_of uv_enotsup = inr refl
label_of-status_of uv_eperm = inr refl
label_of-status_of uv_epipe = inr refl
label_of-status_of uv_eproto = inr refl
label_of-status_of uv_eprotonosupport = inr refl
label_of-status_of uv_eprototype = inr refl
label_of-status_of uv_erange = inr refl
label_of-status_of uv_erofs = inr refl
label_of-status_of uv_eshutdown = inr refl
label_of-status_of uv_espipe = inr refl
label_of-status_of uv_esrch = inr refl
label_of-status_of uv_etimedout = inr refl
label_of-status_of uv_etxtbsy = inr refl
label_of-status_of uv_exdev = inr refl
label_of-status_of uv_unknown = inr refl
label_of-status_of uv_eof = inr refl
label_of-status_of uv_enxio = inr refl
label_of-status_of uv_emlink = inr refl
label_of-status_of uv_ehostdown = inr refl
label_of-status_of uv_eremoteio = inr refl
label_of-status_of uv_enotty = inr refl
label_of-status_of uv_eftype = inr refl

pub status_of-IsError : (c : UvCode) → (number (status_of c) == 0) ≡ false
status_of-IsError uv_e2big = refl
status_of-IsError uv_eacces = refl
status_of-IsError uv_eaddrinuse = refl
status_of-IsError uv_eaddrnotavail = refl
status_of-IsError uv_eafnosupport = refl
status_of-IsError uv_eagain = refl
status_of-IsError uv_eai_addrfamily = refl
status_of-IsError uv_eai_again = refl
status_of-IsError uv_eai_badflags = refl
status_of-IsError uv_eai_badhints = refl
status_of-IsError uv_eai_canceled = refl
status_of-IsError uv_eai_fail = refl
status_of-IsError uv_eai_family = refl
status_of-IsError uv_eai_memory = refl
status_of-IsError uv_eai_nodata = refl
status_of-IsError uv_eai_noname = refl
status_of-IsError uv_eai_overflow = refl
status_of-IsError uv_eai_protocol = refl
status_of-IsError uv_eai_service = refl
status_of-IsError uv_eai_socktype = refl
status_of-IsError uv_ealready = refl
status_of-IsError uv_ebadf = refl
status_of-IsError uv_ebusy = refl
status_of-IsError uv_ecanceled = refl
status_of-IsError uv_echarset = refl
status_of-IsError uv_econnaborted = refl
status_of-IsError uv_econnrefused = refl
status_of-IsError uv_econnreset = refl
status_of-IsError uv_edestaddrreq = refl
status_of-IsError uv_eexist = refl
status_of-IsError uv_efault = refl
status_of-IsError uv_efbig = refl
status_of-IsError uv_ehostunreach = refl
status_of-IsError uv_eintr = refl
status_of-IsError uv_einval = refl
status_of-IsError uv_eio = refl
status_of-IsError uv_eisconn = refl
status_of-IsError uv_eisdir = refl
status_of-IsError uv_eloop = refl
status_of-IsError uv_emfile = refl
status_of-IsError uv_emsgsize = refl
status_of-IsError uv_enametoolong = refl
status_of-IsError uv_enetdown = refl
status_of-IsError uv_enetunreach = refl
status_of-IsError uv_enfile = refl
status_of-IsError uv_enobufs = refl
status_of-IsError uv_enodev = refl
status_of-IsError uv_enoent = refl
status_of-IsError uv_enomem = refl
status_of-IsError uv_enonet = refl
status_of-IsError uv_enoprotoopt = refl
status_of-IsError uv_enospc = refl
status_of-IsError uv_enosys = refl
status_of-IsError uv_enotconn = refl
status_of-IsError uv_enotdir = refl
status_of-IsError uv_enotempty = refl
status_of-IsError uv_enotsock = refl
status_of-IsError uv_enotsup = refl
status_of-IsError uv_eperm = refl
status_of-IsError uv_epipe = refl
status_of-IsError uv_eproto = refl
status_of-IsError uv_eprotonosupport = refl
status_of-IsError uv_eprototype = refl
status_of-IsError uv_erange = refl
status_of-IsError uv_erofs = refl
status_of-IsError uv_eshutdown = refl
status_of-IsError uv_espipe = refl
status_of-IsError uv_esrch = refl
status_of-IsError uv_etimedout = refl
status_of-IsError uv_etxtbsy = refl
status_of-IsError uv_exdev = refl
status_of-IsError uv_unknown = refl
status_of-IsError uv_eof = refl
status_of-IsError uv_enxio = refl
status_of-IsError uv_emlink = refl
status_of-IsError uv_ehostdown = refl
status_of-IsError uv_eremoteio = refl
status_of-IsError uv_enotty = refl
status_of-IsError uv_eftype = refl
