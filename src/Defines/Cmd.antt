-- ===== src/Defines/Cmd.antt =====
-- The values of rs_cmd_t (src/common/rs_defines.h) that the code uses.
use labyrinthus.Base.{ℕ}

abbrev pub undefined : ℕ
undefined = 0

abbrev pub getchains_request : ℕ
getchains_request = 1

abbrev pub getchains_response : ℕ
getchains_response = 2

abbrev pub setchains_request : ℕ
setchains_request = 3

abbrev pub setchains_response : ℕ
setchains_response = 4

abbrev pub ondeviceconnect_request : ℕ
ondeviceconnect_request = 5

abbrev pub ondeviceconnect_response : ℕ
ondeviceconnect_response = 6

abbrev pub getdevices_request : ℕ
getdevices_request = 7

abbrev pub getdevices_response : ℕ
getdevices_response = 8

abbrev pub send_packet : ℕ
send_packet = 9
