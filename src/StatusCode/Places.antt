-- ===== src/StatusCode/Places.antt =====
-- The labels of the switch of source/io/StatusCode.cpp: each is in it.
use tarm_io.Prelude.{ℕ, ◌<◌, arith, some, ◌≡◌, refl, get_elem?}
use tarm_io.StatusCode.Uv.{
  UvCode, uv_codes, uv_e2big, uv_eacces, uv_eaddrinuse, uv_eaddrnotavail, uv_eafnosupport,
  uv_eagain, uv_eai_addrfamily, uv_eai_again, uv_eai_badflags, uv_eai_badhints, uv_eai_canceled,
  uv_eai_fail, uv_eai_family, uv_eai_memory, uv_eai_nodata, uv_eai_noname, uv_eai_overflow,
  uv_eai_protocol, uv_eai_service, uv_eai_socktype, uv_ealready, uv_ebadf, uv_ebusy, uv_ecanceled,
  uv_echarset, uv_econnaborted, uv_econnrefused, uv_econnreset, uv_edestaddrreq, uv_eexist,
  uv_efault, uv_efbig, uv_ehostunreach, uv_eintr, uv_einval, uv_eio, uv_eisconn, uv_eisdir,
  uv_eloop, uv_emfile, uv_emsgsize, uv_enametoolong, uv_enetdown, uv_enetunreach, uv_enfile,
  uv_enobufs, uv_enodev, uv_enoent, uv_enomem, uv_enonet, uv_enoprotoopt, uv_enospc, uv_enosys,
  uv_enotconn, uv_enotdir, uv_enotempty, uv_enotsock, uv_enotsup, uv_eperm, uv_epipe, uv_eproto,
  uv_eprotonosupport, uv_eprototype, uv_erange, uv_erofs, uv_eshutdown, uv_espipe, uv_esrch,
  uv_etimedout, uv_etxtbsy, uv_exdev, uv_unknown, uv_eof, uv_enxio, uv_emlink, uv_ehostdown,
  uv_eremoteio, uv_enotty, uv_eftype,
}

abbrev pub place : UvCode → ℕ
place uv_e2big = 0
place uv_eacces = 1
place uv_eaddrinuse = 2
place uv_eaddrnotavail = 3
place uv_eafnosupport = 4
place uv_eagain = 5
place uv_eai_addrfamily = 6
place uv_eai_again = 7
place uv_eai_badflags = 8
place uv_eai_badhints = 9
place uv_eai_canceled = 10
place uv_eai_fail = 11
place uv_eai_family = 12
place uv_eai_memory = 13
place uv_eai_nodata = 14
place uv_eai_noname = 15
place uv_eai_overflow = 16
place uv_eai_protocol = 17
place uv_eai_service = 18
place uv_eai_socktype = 19
place uv_ealready = 20
place uv_ebadf = 21
place uv_ebusy = 22
place uv_ecanceled = 23
place uv_echarset = 24
place uv_econnaborted = 25
place uv_econnrefused = 26
place uv_econnreset = 27
place uv_edestaddrreq = 28
place uv_eexist = 29
place uv_efault = 30
place uv_efbig = 31
place uv_ehostunreach = 32
place uv_eintr = 33
place uv_einval = 34
place uv_eio = 35
place uv_eisconn = 36
place uv_eisdir = 37
place uv_eloop = 38
place uv_emfile = 39
place uv_emsgsize = 40
place uv_enametoolong = 41
place uv_enetdown = 42
place uv_enetunreach = 43
place uv_enfile = 44
place uv_enobufs = 45
place uv_enodev = 46
place uv_enoent = 47
place uv_enomem = 48
place uv_enonet = 49
place uv_enoprotoopt = 50
place uv_enospc = 51
place uv_enosys = 52
place uv_enotconn = 53
place uv_enotdir = 54
place uv_enotempty = 55
place uv_enotsock = 56
place uv_enotsup = 57
place uv_eperm = 58
place uv_epipe = 59
place uv_eproto = 60
place uv_eprotonosupport = 61
place uv_eprototype = 62
place uv_erange = 63
place uv_erofs = 64
place uv_eshutdown = 65
place uv_espipe = 66
place uv_esrch = 67
place uv_etimedout = 68
place uv_etxtbsy = 69
place uv_exdev = 70
place uv_unknown = 71
place uv_eof = 72
place uv_enxio = 73
place uv_emlink = 74
place uv_ehostdown = 75
place uv_eremoteio = 76
place uv_enotty = 77
place uv_eftype = 78

pub place_small : (c : UvCode) → place c < 100
place_small uv_e2big = omega arith
place_small uv_eacces = omega arith
place_small uv_eaddrinuse = omega arith
place_small uv_eaddrnotavail = omega arith
place_small uv_eafnosupport = omega arith
place_small uv_eagain = omega arith
place_small uv_eai_addrfamily = omega arith
place_small uv_eai_again = omega arith
place_small uv_eai_badflags = omega arith
place_small uv_eai_badhints = omega arith
place_small uv_eai_canceled = omega arith
place_small uv_eai_fail = omega arith
place_small uv_eai_family = omega arith
place_small uv_eai_memory = omega arith
place_small uv_eai_nodata = omega arith
place_small uv_eai_noname = omega arith
place_small uv_eai_overflow = omega arith
place_small uv_eai_protocol = omega arith
place_small uv_eai_service = omega arith
place_small uv_eai_socktype = omega arith
place_small uv_ealready = omega arith
place_small uv_ebadf = omega arith
place_small uv_ebusy = omega arith
place_small uv_ecanceled = omega arith
place_small uv_echarset = omega arith
place_small uv_econnaborted = omega arith
place_small uv_econnrefused = omega arith
place_small uv_econnreset = omega arith
place_small uv_edestaddrreq = omega arith
place_small uv_eexist = omega arith
place_small uv_efault = omega arith
place_small uv_efbig = omega arith
place_small uv_ehostunreach = omega arith
place_small uv_eintr = omega arith
place_small uv_einval = omega arith
place_small uv_eio = omega arith
place_small uv_eisconn = omega arith
place_small uv_eisdir = omega arith
place_small uv_eloop = omega arith
place_small uv_emfile = omega arith
place_small uv_emsgsize = omega arith
place_small uv_enametoolong = omega arith
place_small uv_enetdown = omega arith
place_small uv_enetunreach = omega arith
place_small uv_enfile = omega arith
place_small uv_enobufs = omega arith
place_small uv_enodev = omega arith
place_small uv_enoent = omega arith
place_small uv_enomem = omega arith
place_small uv_enonet = omega arith
place_small uv_enoprotoopt = omega arith
place_small uv_enospc = omega arith
place_small uv_enosys = omega arith
place_small uv_enotconn = omega arith
place_small uv_enotdir = omega arith
place_small uv_enotempty = omega arith
place_small uv_enotsock = omega arith
place_small uv_enotsup = omega arith
place_small uv_eperm = omega arith
place_small uv_epipe = omega arith
place_small uv_eproto = omega arith
place_small uv_eprotonosupport = omega arith
place_small uv_eprototype = omega arith
place_small uv_erange = omega arith
place_small uv_erofs = omega arith
place_small uv_eshutdown = omega arith
place_small uv_espipe = omega arith
place_small uv_esrch = omega arith
place_small uv_etimedout = omega arith
place_small uv_etxtbsy = omega arith
place_small uv_exdev = omega arith
place_small uv_unknown = omega arith
place_small uv_eof = omega arith
place_small uv_enxio = omega arith
place_small uv_emlink = omega arith
place_small uv_ehostdown = omega arith
place_small uv_eremoteio = omega arith
place_small uv_enotty = omega arith
place_small uv_eftype = omega arith

pub get_elem?-place : (c : UvCode) → get_elem? uv_codes (place c) ≡ some c
get_elem?-place uv_e2big = refl
get_elem?-place uv_eacces = refl
get_elem?-place uv_eaddrinuse = refl
get_elem?-place uv_eaddrnotavail = refl
get_elem?-place uv_eafnosupport = refl
get_elem?-place uv_eagain = refl
get_elem?-place uv_eai_addrfamily = refl
get_elem?-place uv_eai_again = refl
get_elem?-place uv_eai_badflags = refl
get_elem?-place uv_eai_badhints = refl
get_elem?-place uv_eai_canceled = refl
get_elem?-place uv_eai_fail = refl
get_elem?-place uv_eai_family = refl
get_elem?-place uv_eai_memory = refl
get_elem?-place uv_eai_nodata = refl
get_elem?-place uv_eai_noname = refl
get_elem?-place uv_eai_overflow = refl
get_elem?-place uv_eai_protocol = refl
get_elem?-place uv_eai_service = refl
get_elem?-place uv_eai_socktype = refl
get_elem?-place uv_ealready = refl
get_elem?-place uv_ebadf = refl
get_elem?-place uv_ebusy = refl
get_elem?-place uv_ecanceled = refl
get_elem?-place uv_echarset = refl
get_elem?-place uv_econnaborted = refl
get_elem?-place uv_econnrefused = refl
get_elem?-place uv_econnreset = refl
get_elem?-place uv_edestaddrreq = refl
get_elem?-place uv_eexist = refl
get_elem?-place uv_efault = refl
get_elem?-place uv_efbig = refl
get_elem?-place uv_ehostunreach = refl
get_elem?-place uv_eintr = refl
get_elem?-place uv_einval = refl
get_elem?-place uv_eio = refl
get_elem?-place uv_eisconn = refl
get_elem?-place uv_eisdir = refl
get_elem?-place uv_eloop = refl
get_elem?-place uv_emfile = refl
get_elem?-place uv_emsgsize = refl
get_elem?-place uv_enametoolong = refl
get_elem?-place uv_enetdown = refl
get_elem?-place uv_enetunreach = refl
get_elem?-place uv_enfile = refl
get_elem?-place uv_enobufs = refl
get_elem?-place uv_enodev = refl
get_elem?-place uv_enoent = refl
get_elem?-place uv_enomem = refl
get_elem?-place uv_enonet = refl
get_elem?-place uv_enoprotoopt = refl
get_elem?-place uv_enospc = refl
get_elem?-place uv_enosys = refl
get_elem?-place uv_enotconn = refl
get_elem?-place uv_enotdir = refl
get_elem?-place uv_enotempty = refl
get_elem?-place uv_enotsock = refl
get_elem?-place uv_enotsup = refl
get_elem?-place uv_eperm = refl
get_elem?-place uv_epipe = refl
get_elem?-place uv_eproto = refl
get_elem?-place uv_eprotonosupport = refl
get_elem?-place uv_eprototype = refl
get_elem?-place uv_erange = refl
get_elem?-place uv_erofs = refl
get_elem?-place uv_eshutdown = refl
get_elem?-place uv_espipe = refl
get_elem?-place uv_esrch = refl
get_elem?-place uv_etimedout = refl
get_elem?-place uv_etxtbsy = refl
get_elem?-place uv_exdev = refl
get_elem?-place uv_unknown = refl
get_elem?-place uv_eof = refl
get_elem?-place uv_enxio = refl
get_elem?-place uv_emlink = refl
get_elem?-place uv_ehostdown = refl
get_elem?-place uv_eremoteio = refl
get_elem?-place uv_enotty = refl
get_elem?-place uv_eftype = refl
