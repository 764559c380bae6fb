-- ===== src/Proto/Caps.antt =====
-- crates/mist-proto/src/caps.rs
use mist.Prelude.{ℕ, ◌*◌}

abbrev pub max_frame : ℕ
max_frame = 2 * 1024 * 1024

abbrev pub max_frame_bulk : ℕ
max_frame_bulk = 4 * 1024 * 1024

abbrev pub max_name : ℕ
max_name = 255

abbrev pub max_symlink : ℕ
max_symlink = 4096

abbrev pub max_str : ℕ
max_str = 128

abbrev pub max_shares : ℕ
max_shares = 64

abbrev pub max_records_per_batch : ℕ
max_records_per_batch = 512

abbrev pub max_snap_entries : ℕ
max_snap_entries = 2048

abbrev pub max_statbatch : ℕ
max_statbatch = 4096

abbrev pub max_read_len : ℕ
max_read_len = 4 * 1024 * 1024
