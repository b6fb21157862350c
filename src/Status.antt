-- ===== src/Status.antt =====
-- source/kernel/include/kernel/status.h: what the kernel's functions return.

pub data Status : Type 0 where
  success not_implemented not_supported would_block interrupted timed_out : Status
  invalid_syscall invalid_arg invalid_handle invalid_addr invalid_request invalid_event : Status
  overflow no_memory no_handles process_limit thread_limit read_only : Status
  perm_denied access_denied not_dir not_regular not_symlink not_mount : Status
  not_found not_empty already_exists too_small too_large too_long : Status
  dir_full unknown_fs corrupt_fs fs_full symlink_limit in_use : Status
  device_error still_running unknown_image malformed_image missing_library missing_symbol : Status
  try_again different_fs is_dir conn_hungup : Status
