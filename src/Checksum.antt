-- ===== src/Checksum.antt =====
-- The two checksums of src/utils: get_crc (get_crc.cpp) and ip_sum (ip.cpp).
pub mod Crc
pub mod InternetSum
pub mod Verify
